-- ===== src/Oxpull/Batches.antt =====
-- src/oxpull/batches.py: one batch, its members and the task table: Batch.add, seal and progress, and
-- the reconciler's _complete_if_finished. Each of them but progress is one transaction that holds the
-- batch row, and `tasks` is the task table where that transaction reads it.
use django_ox.Prelude.{
  ℕ, ◌+◌, ◌-◌, Bool, true, false, ◌&&◌, not, Option, none, some, List, [], ◌∷◌, ◌++◌, leb, ◌==◌,
  if◌then◌else◌, any, length,
}
use django_ox.Store.{
  Table, Status, ready, running, failed, successful, lost, discarded, waiting, status_eq,
  statuses_in, matched,
}
use django_ox.Waiting.{Call, backend_enqueue}
pub mod Counting
pub mod Clean
pub mod Counted
pub mod Once

pub data BatchStatus : Type 0 where
  open_ sealed complete : BatchStatus

-- OxpullBatch. A callback is none where its path is empty.
pub record BatchRow : Type 0 where
  pub status : BatchStatus
  pub total_count : Option ℕ
  pub on_complete : Option Call
  pub on_success : Option Call
  pub failed_count : Option ℕ
  pub callback_task_id : Option ℕ
  pub success_task_id : Option ℕ
  pub sealed_at : Option ℕ
  pub completed_at : Option ℕ

-- The row, the task ids of its members in the order of their INSERTs, and the task table.
pub record Batch : Type 0 where
  pub row : BatchRow
  pub members : List ℕ
  pub tasks : Table

abbrev pub is_member : List ℕ → ℕ → Bool
is_member ids pk = any (λ m. m == pk) ids

abbrev pub all_statuses : List Status
all_statuses = ready ∷ running ∷ failed ∷ successful ∷ lost ∷ discarded ∷ waiting ∷ []

abbrev pub settled_statuses : List Status
settled_statuses = successful ∷ failed ∷ lost ∷ discarded ∷ []

abbrev pub unattributed_statuses : List Status
unattributed_statuses = lost ∷ discarded ∷ []

-- The status counts, a status without rows counting none.
unfoldable pub member_task_counts : List ℕ → Table → Status → ℕ
member_task_counts ids t s = matched (λ r. is_member ids r.id && status_eq r.status s) t

abbrev pub sum_over : (Status → ℕ) → List Status → ℕ
sum_over f [] = 0
sum_over f (s ∷ ss) = f s + sum_over f ss

unfoldable pub pending_count : (Status → ℕ) → ℕ
pending_count counts =
    sum_over (λ s. if statuses_in settled_statuses s then 0 else counts s) all_statuses

-- What an operation gives back; `refused` is an exception that rolled its transaction back.
pub data Refusal : Type 0 where
  batch_sealed member_exists not_scheduled callback_refused : Refusal

pub data Answer : Type 0 where
  done : Answer
  completed : (fails unattributed : ℕ) → Answer
  nothing_to_do : Answer
  refused : Refusal → Answer

-- What the enqueue of a member gave: a new row, or a pending task of the same unique key.
pub data Enqueued : Type 0 where
  inserted : (id : ℕ) (call : Call) (now : ℕ) → Enqueued
  deduplicated : (id : ℕ) → Enqueued

abbrev pub task_id : Enqueued → ℕ
task_id (inserted id call now) = id
task_id (deduplicated id) = id

abbrev pub after_enqueue : Enqueued → Table → Table
after_enqueue (inserted id call now) t = backend_enqueue id call now t
after_enqueue (deduplicated id) t = t

abbrev pub is_open : BatchStatus → Bool
is_open open_ = true
is_open sealed = false
is_open complete = false

abbrev pub is_sealed : BatchStatus → Bool
is_sealed open_ = false
is_sealed sealed = true
is_sealed complete = false

-- Batch.add. A refusal rolls the enqueue back with the rest.
unfoldable pub add : Enqueued → Batch → Batch × Answer
add e b =
    if not (is_open b.row.status)
    then (b, refused batch_sealed)
    else if is_member b.members (task_id e)
    then (b, refused member_exists)
    else (record b { members = b.members ++ task_id e ∷ []; tasks = after_enqueue e b.tasks }, done)

-- Batch.seal; `scheduled` is _require_reconcile_schedule.
unfoldable pub seal : (scheduled : Bool) → (now : ℕ) → Batch → Batch × Answer
seal scheduled now b =
    if not (is_open b.row.status)
    then (b, refused batch_sealed)
    else if not scheduled
    then (b, refused not_scheduled)
    else (
      record b {
        row = record b.row {
          status = sealed;
          sealed_at = some now;
          total_count = some (length b.members);
        };
      },
      done,
    )

-- _enqueue_callback: the task's id and the table with its row, or none where the path no longer
-- imports a task of the right backend. `ids` are the UUIDs that the enqueues draw.
abbrev pub enqueue_callback :
    (accepts : Call → Bool) → Option Call → (id now : ℕ) → Table → Option (Option ℕ × Table)
enqueue_callback accepts none id now t = some (none, t)
enqueue_callback accepts (some call) id now t =
    if accepts call then some (some id, backend_enqueue id call now t) else none

abbrev pub total_of : Option ℕ → List ℕ → ℕ
total_of none members = length members
total_of (some n) members = n

-- The rows with an outcome on record, or still without one: all but LOST and DISCARDED.
unfoldable pub counted_rows : (Status → ℕ) → ℕ
counted_rows counts = sum_over counts all_statuses - sum_over counts unattributed_statuses

-- Whether the run was clean, which on_success asks.
abbrev pub success_call : (fails unattributed : ℕ) → Option Call → Option Call
success_call fails unattributed call = if fails == 0 && unattributed == 0 then call else none

-- The row of a batch that completes, with the callbacks' ids.
unfoldable pub completed_row :
    (now fails total : ℕ) → (callback success : Option ℕ) → BatchRow → BatchRow
completed_row now fails total callback success row = record row {
  status = complete;
  completed_at = some now;
  failed_count = some fails;
  total_count = some total;
  callback_task_id = callback;
  success_task_id = success;
}

-- The callbacks and the last UPDATE, from the counts on.
unfoldable pub finish :
    (accepts : Call → Bool) → (id1 id2 now : ℕ) → (counts : Status → ℕ) → Batch → Batch × Answer
unfolding completed_row counted_rows
finish accepts id1 id2 now counts b =
    let fails = counts failed in
    let total = total_of b.row.total_count b.members in
    let unattributed = total - counted_rows counts in
    elim (enqueue_callback accepts b.row.on_complete id1 now b.tasks) [
      | none ↦ (b, refused callback_refused)
      | some (callback, t1) ↦
          elim (enqueue_callback accepts (success_call fails unattributed b.row.on_success) id2 now
            t1) [
              | none ↦ (b, refused callback_refused)
              | some (success, t2) ↦ (
                record b { row = completed_row now fails total callback success b.row; tasks = t2 },
                completed fails unattributed,
              )
            ]
    ]

-- _complete_once: the compare-and-set, and the counts read under the row's lock.
unfoldable pub complete_once : (accepts : Call → Bool) → (id1 id2 now : ℕ) → Batch → Batch × Answer
unfolding member_task_counts pending_count finish
complete_once accepts id1 id2 now b =
    let counts = member_task_counts b.members b.tasks in
    if not (is_sealed b.row.status)
    then (b, nothing_to_do)
    else if pending_count counts == 0
    then finish accepts id1 id2 now counts b
    else (b, nothing_to_do)

-- _complete_if_finished: a first count of what it sees without the lock, and the transaction on what
-- there is by then.
unfoldable pub complete_if_finished :
    (accepts : Call → Bool) → (id1 id2 now : ℕ) → (seen held : Batch) → Batch × Answer
unfolding member_task_counts pending_count complete_once
complete_if_finished accepts id1 id2 now seen held =
    if pending_count (member_task_counts seen.members seen.tasks) == 0
    then complete_once accepts id1 id2 now held
    else (held, nothing_to_do)

-- Batch.progress. While the batch is open the members are counted first and the rows after them, with
-- `later` members and tasks by then.
pub record BatchProgress : Type 0 where
  pub total : ℕ
  pub pending : ℕ
  pub succeeded : ℕ
  pub failed : ℕ

abbrev pub max : ℕ → ℕ → ℕ
max a b = if leb a b then b else a

unfoldable pub progress : (now later : Batch) → BatchProgress
unfolding member_task_counts pending_count
progress now later =
    let counts = member_task_counts later.members later.tasks in
    record {
      total = elim now.row.total_count [
        | some n ↦ n
        | none ↦ max (length now.members) (sum_over counts all_statuses)
      ];
      pending = pending_count counts;
      succeeded = counts successful;
      failed = counts Status.failed;
    }

-- BatchProgress.unattributed and finished.
abbrev pub unattributed_of : BatchProgress → ℕ
unattributed_of p = p.total - (p.pending + p.succeeded + p.failed)

abbrev pub finished_of : BatchProgress → ℕ
finished_of p = p.total - p.pending
