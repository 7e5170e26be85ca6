-- ===== src/Oxpull/Unique.antt =====
-- src/oxpull/backend.py and src/oxpull/unique.py: the lock rows of unique tasks beside the task table, by
-- the statements of _enqueue_unique and _resolve_conflict. `digest` is unique_key on the columns of a row.
use django_ox.Prelude.{
  ℕ, zero, suc, Bool, ◌&&◌, not, Option, none, some, List, [], ◌∷◌, ◌++◌, ◌==◌, if◌then◌else◌, any,
  select, head?,
}
use django_ox.Store.{OxTask, Table, Status, ready, running, statuses_in}
use django_ox.Waiting.{Call, backend_enqueue, new_row}
pub mod Pending
pub mod Run

-- OxpullUniqueLock, as it commits: with its task.
pub record UniqueLock : Type 0 where
  pub key : ℕ
  pub task_id : ℕ

pub record Locked : Type 0 where
  pub locks : List UniqueLock
  pub tasks : Table

-- The statuses in which a holder keeps its key.
abbrev pub pending : List Status
pending = ready ∷ running ∷ []

abbrev pub is_pending : OxTask → Bool
is_pending r = statuses_in pending r.status

abbrev pub has_key : ℕ → UniqueLock → Bool
has_key key l = l.key == key

-- The transaction that inserts the lock and then the task; none where the primary key is taken.
unfoldable pub take_key :
    (digest : OxTask → ℕ) → (id : ℕ) → Call → (now : ℕ) → Locked → Option Locked
take_key digest id call now s =
    let key = digest (new_row id call now) in
    if any (has_key key) s.locks
    then none
    else some (record {
      locks = s.locks ++ record { key = key; task_id = id } ∷ [];
      tasks = backend_enqueue id call now s.tasks;
    })

-- `Exists(OxTask, status__in=pending)` on the holder's key.
unfoldable pub is_held : Table → ℕ → Bool
is_held t id = any (λ r. r.id == id && is_pending r) t

-- The DELETE of the lock inspected, with the holder's status in its own WHERE.
unfoldable pub release_key : UniqueLock → Locked → Locked
release_key seen s = record s {
  locks =
      select
        (λ l.
          not (l.key == seen.key && l.task_id == seen.task_id && not (is_held s.tasks l.task_id)))
        s.locks;
}

pub data Resolved : Type 0 where
  existing : (task_id : ℕ) → Resolved
  again : Resolved

-- _resolve_conflict: the lock is read from `read`, its holder from `held`, and the holder again, on a
-- database with row locks, from the state of the DELETE.
unfoldable pub resolve_conflict :
    (locks : Bool) → (key : ℕ) → (read held s : Locked) → Locked × Resolved
resolve_conflict locks key read held s = elim (head? (select (has_key key) read.locks)) [
  | none ↦ (s, again)
  | some lock ↦
      if is_held held.tasks lock.task_id
      then (s, existing lock.task_id)
      else if locks && is_held s.tasks lock.task_id
      then (s, existing lock.task_id)
      else (release_key lock s, again)
]

pub data Enqueue : Type 0 where
  enqueued : (task_id : ℕ) → Enqueue
  duplicate_of : (task_id : ℕ) → Enqueue
  race : Enqueue

abbrev pub max_unique_attempts : ℕ
max_unique_attempts = 5

-- _enqueue_unique on a connection that loses no transaction; `others k` is what other sessions do
-- before statement k, and `ids` draws the ids.
unfoldable pub enqueue_unique_from :
    (locks : Bool)
    → (digest : OxTask → ℕ) → (ids : ℕ → ℕ) → Call
    → (now : ℕ) → (others : ℕ → Locked → Locked) → (k tries : ℕ) → Locked
    → Locked × Enqueue
enqueue_unique_from locks digest ids call now others k zero s = (s, race)
enqueue_unique_from locks digest ids call now others k (suc tries) s =
    let s1 = others k s in
    let read = others (suc k) s1 in
    let held = others (suc (suc k)) read in
    let s2 = others (suc (suc (suc k))) held in
    let r = resolve_conflict locks (digest (new_row (ids k) call now)) read held s2 in
    let next =
      enqueue_unique_from locks digest ids call now others (suc (suc (suc (suc k)))) tries r.0 in
    elim (take_key digest (ids k) call now s1) [
      | some s' ↦ (s', enqueued (ids k))
      | none ↦ elim r.1 [ existing id ↦ (r.0, duplicate_of id) | again ↦ next ]
    ]

unfoldable pub enqueue_unique :
    (locks : Bool)
    → (digest : OxTask → ℕ) → (ids : ℕ → ℕ) → Call
    → (now : ℕ) → (others : ℕ → Locked → Locked) → Locked
    → Locked × Enqueue
unfolding enqueue_unique_from
enqueue_unique locks digest ids call now others s =
    enqueue_unique_from locks digest ids call now others 0 max_unique_attempts s
