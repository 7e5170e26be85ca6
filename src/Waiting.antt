-- ===== src/Waiting.antt =====
-- src/django_ox/_waiting.py: rows that wait for something outside the worker, and the one place
-- that builds a row, OxBackend._row of src/django_ox/backend.py.
use django_ox.Prelude.{
  ℕ, suc, ◌+◌, ◌-◌, Bool, true, false, ◌&&◌, Option, none, some, List, [], ◌∷◌, ◌++◌, String, ltb,
  ◌==◌, if◌then◌else◌, length,
}
use django_ox.Store.{
  OxTask, Status, ready, waiting, discarded, status_eq, Table, update, matched, first,
}
use django_ox.Actions.{ResultId, pk_of, update_chunk_size, discarded_row, at_epoch}
use django_ox.Actions.Ids
pub mod Pinned
pub mod Chunks
pub mod Moves
pub mod Covers

-- What _row reads of the call: the task, its arguments, and the budgets.
pub record Call : Type 0 where
  pub module_path : String
  pub args : String
  pub kwargs : String
  pub queue_name : String
  pub priority : ℕ
  pub takes_context : Bool
  pub alias : String
  pub run_after : Option ℕ
  pub declared : Option ℕ
  pub inherited : ℕ

abbrev pub budget : Option ℕ → ℕ → ℕ
budget none inherited = inherited
budget (some n) inherited = n

-- OxBackend._row: the columns not named take the model's defaults. `id` is what uuid4 drew.
unfoldable pub new_row : ℕ → Call → ℕ → OxTask
new_row id call now = record {
  id = id;
  task_path = call.module_path;
  args = call.args;
  kwargs = call.kwargs;
  queue_name = call.queue_name;
  priority = call.priority;
  takes_context = call.takes_context;
  backend_name = call.alias;
  status = ready;
  run_after = call.run_after;
  attempts = 0;
  max_attempts = budget call.declared call.inherited;
  return_value = none;
  errors = [];
  worker_ids = [];
  enqueued_at = now;
  started_at = none;
  last_attempted_at = none;
  finished_at = none;
  locked_by = none;
  locked_at = none;
  lease_expires_at = none;
  lease_epoch = 0;
}

-- OxBackend.enqueue, and enqueue of this module: one INSERT each.
unfoldable pub backend_enqueue : ℕ → Call → ℕ → Table → Table
unfolding new_row
backend_enqueue id call now t = t ++ new_row id call now ∷ []

unfoldable pub enqueue : ℕ → Call → ℕ → Table → Table
unfolding new_row
enqueue id call now t = t ++ record (new_row id call now) { status = waiting } ∷ []

-- The Case of _released: the later of now and the row's own run_after, a NULL being no later.
abbrev pub later_of : ℕ → Option ℕ → Option ℕ
later_of now none = some now
later_of now (some at) = some (if ltb now at then at else now)

unfoldable pub released_row : ℕ → OxTask → OxTask
released_row now r = record r { status = ready; run_after = later_of now r.run_after }

unfoldable pub is_waiting_at : ℕ → ℕ → OxTask → Bool
is_waiting_at pk epoch r = r.id == pk && status_eq r.status waiting && at_epoch epoch r

unfoldable pub release :
    (String → Option ℕ) → ℕ → ResultId → (lease_epoch : ℕ) → Table → Table × Bool
unfolding pk_of released_row is_waiting_at
release parse now task_id lease_epoch t = elim (pk_of parse task_id) [
  | none ↦ (t, false)
  | some pk ↦ (
    update (is_waiting_at pk lease_epoch) (released_row now) t,
    matched (is_waiting_at pk lease_epoch) t == 1,
  )
]

-- The UPDATE of one chunk, and the loop over the chunks.
abbrev pub move_pinned :
    (statuses : List Status) → (OxTask → OxTask) → List (ℕ × ℕ) → Table → Table × ℕ
move_pinned statuses set_ chunk t = (
  update (Pinned.pinned_rows chunk statuses) set_ t,
  matched (Pinned.pinned_rows chunk statuses) t,
)

unfoldable pub move_pinned_chunks :
    (statuses : List Status)
    → (OxTask → OxTask)
    → (ℕ → Table → Table)
    → ℕ
    → List (List (ℕ × ℕ))
    → Table
    → Table × ℕ
unfolding Pinned.pinned_rows
move_pinned_chunks statuses set_ others k [] t = (t, 0)
move_pinned_chunks statuses set_ others k (chunk ∷ rest) t =
    let (t1, n) = move_pinned statuses set_ chunk (others k t) in
    let (t2, m) = move_pinned_chunks statuses set_ others (suc k) rest t1 in (t2, n + m)

unfoldable pub release_many :
    (String → Option ℕ)
    → (ℕ → ℕ)
    → ℕ
    → (ℕ → Table → Table)
    → List (ResultId × ℕ)
    → Table
    → Table × ℕ × ℕ
unfolding move_pinned_chunks released_row
release_many parse key now others rows t =
    let pairs = Pinned.pinned parse key rows in
    let (t', changed) =
      move_pinned_chunks (waiting ∷ []) (released_row now) others 0
        (Ids.chunks update_chunk_size pairs) t in
    (
      t',
      changed,
      length pairs + length (Ids.distinct_texts (Pinned.malformed parse rows)) - changed,
    )

abbrev pub cancellable : List Status
cancellable = ready ∷ waiting ∷ []

unfoldable pub cancel_many :
    (String → Option ℕ)
    → (ℕ → ℕ)
    → ℕ
    → (ℕ → Table → Table)
    → List (ResultId × ℕ)
    → Table
    → Table × ℕ
unfolding move_pinned_chunks discarded_row
cancel_many parse key now others rows t =
    move_pinned_chunks cancellable (discarded_row now) others 0
      (Ids.chunks update_chunk_size (Pinned.pinned parse key rows)) t

pub data Revival : Type 0 where
  revived not_found wrong_status_or_epoch : Revival

-- What the locking read says of one pair.
abbrev pub judge : ℕ → Option OxTask → Revival
judge epoch none = not_found
judge epoch (some r) =
    if status_eq r.status discarded && at_epoch epoch r then revived else wrong_status_or_epoch

abbrev pub has_key : ℕ → OxTask → Bool
has_key pk r = r.id == pk

unfoldable pub judged : Table → List (ℕ × ℕ) → List (ℕ × Revival)
judged t [] = []
judged t ((pk, epoch) ∷ rest) = (pk, judge epoch (first (has_key pk) t)) ∷ judged t rest

abbrev pub is_revived : Revival → Bool
is_revived revived = true
is_revived not_found = false
is_revived wrong_status_or_epoch = false

unfoldable pub revivable : Table → List (ℕ × ℕ) → List (ℕ × ℕ)
revivable t [] = []
revivable t ((pk, epoch) ∷ rest) =
    let others = revivable t rest in
    if is_revived (judge epoch (first (has_key pk) t)) then (pk, epoch) ∷ others else others

unfoldable pub revived_row : OxTask → OxTask
revived_row r = record r { status = waiting; lease_epoch = r.lease_epoch + 1; finished_at = none }

-- `if revivable:`.
abbrev pub revive_rows : List (ℕ × ℕ) → Table → Table
revive_rows [] t = t
revive_rows (p ∷ ps) t = update (Pinned.pinned_rows (p ∷ ps) (discarded ∷ [])) revived_row t

unfoldable pub revive_chunks :
    (ℕ → Table → Table) → ℕ → List (List (ℕ × ℕ)) → Table → Table × List (ℕ × Revival)
unfolding judged revivable revived_row Pinned.pinned_rows
revive_chunks others k [] t = (t, [])
revive_chunks others k (chunk ∷ rest) t =
    let before = others k t in
    let (t', results) =
      revive_chunks others (suc k) rest (revive_rows (revivable before chunk) before) in
    (t', judged before chunk ++ results)

-- None is the ValueError that a malformed id raises before anything moves.
unfoldable pub revive_many :
    (String → Option ℕ)
    → (ℕ → ℕ)
    → (ℕ → Table → Table)
    → List (ResultId × ℕ)
    → Table
    → Option (Table × List (ℕ × Revival))
unfolding revive_chunks
revive_many parse key others rows t = elim (Pinned.malformed parse rows) [
  | [] ↦
      some (revive_chunks others 0 (Ids.chunks update_chunk_size (Pinned.pinned parse key rows)) t)
  | s ∷ ss ↦ none
]
