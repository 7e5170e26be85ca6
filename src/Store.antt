-- ===== src/Store.antt =====
-- The task table, src/django_ox/models.py: the row of OxTask, and the two forms in which the code
-- reaches the rows, a conditional UPDATE and a filtered read.
use django_ox.Prelude.{
  ℕ, ◌+◌, Bool, true, false, ◌||◌, Option, List, [], ◌∷◌, String, if◌then◌else◌, select, head?,
}
pub mod Update

-- OxTask.Status, in the order of its declaration.
pub data Status : Type 0 where
  ready running failed successful lost discarded waiting : Status

abbrev pub status_eq : Status → Status → Bool
status_eq ready ready = true
status_eq running running = true
status_eq failed failed = true
status_eq successful successful = true
status_eq lost lost = true
status_eq discarded discarded = true
status_eq waiting waiting = true
status_eq _ _ = false

-- One entry of `errors`.
pub record ErrorEntry : Type 0 where
  pub exception_class_path : String
  pub traceback : String

-- The columns. `id` is the UUID as a number, its 16 bytes read in order; a time is a number of
-- microseconds; a JSON value that the lifecycle only stores is its text. `priority` is the
-- SmallIntegerField shifted by 32768, so that it is a natural number in the same order.
pub record OxTask : Type 0 where
  pub id : ℕ
  pub task_path : String
  pub args : String
  pub kwargs : String
  pub queue_name : String
  pub priority : ℕ
  pub takes_context : Bool
  pub backend_name : String
  pub status : Status
  pub run_after : Option ℕ
  pub attempts : ℕ
  pub max_attempts : ℕ
  pub return_value : Option String
  pub errors : List ErrorEntry
  pub worker_ids : List String
  pub enqueued_at : ℕ
  pub started_at : Option ℕ
  pub last_attempted_at : Option ℕ
  pub finished_at : Option ℕ
  pub locked_by : Option String
  pub locked_at : Option ℕ
  pub lease_expires_at : Option ℕ
  pub lease_epoch : ℕ

abbrev pub Table : Type 0
Table = List OxTask

-- `queryset.filter(where).update(**set)`: the table after it.
unfoldable pub update : (OxTask → Bool) → (OxTask → OxTask) → Table → Table
update where_ set [] = []
update where_ set (r ∷ t) = (if where_ r then set r else r) ∷ update where_ set t

-- The number of rows that the UPDATE matched, which is what `update` returns.
unfoldable pub matched : (OxTask → Bool) → Table → ℕ
matched where_ [] = 0
matched where_ (r ∷ t) = (if where_ r then 1 else 0) + matched where_ t

-- `queryset.filter(where).first()`.
unfoldable pub first : (OxTask → Bool) → Table → Option OxTask
first where_ t = head? (select where_ t)

-- `status__in`.
abbrev pub statuses_in : List Status → Status → Bool
statuses_in [] s = false
statuses_in (x ∷ xs) s = status_eq s x || statuses_in xs s
