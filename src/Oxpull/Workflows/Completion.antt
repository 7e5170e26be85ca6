-- ===== src/Oxpull/Workflows/Completion.antt =====
-- src/oxpull/workflows.py: one workflow's row and the transaction in which the reconciler completes it.
use django_ox.Prelude.{
  ℕ, ◌+◌, ◌-◌, Bool, true, ◌&&◌, not, Option, none, some, List, [], ◌∷◌, ◌++◌, ◌==◌, if◌then◌else◌,
  any, select, length,
}
use django_ox.Store.{OxTask, Table, status_eq, statuses_in}
use django_ox.Waiting.{Call}
use django_ox.Oxpull.Batches.{complete, is_sealed, enqueue_callback, success_call}
use django_ox.Oxpull.Workflows.{Node, Flow}
use django_ox.Oxpull.Workflows.Classes.{Classes, classify, retryable_dead_statuses}
use django_ox.Oxpull.Workflows.Row.{
  Completion, WorkflowRow, Workflow, nodes_of, Answer, callback_refused, completed, nothing_to_do,
  refused,
}
pub mod Life
pub mod Counted
pub mod Shared
pub mod Sums
pub mod Clean
pub mod Once

-- The FAILED and LOST rows of the workflow's nodes.
unfoldable pub is_dead_row : List Node → OxTask → Bool
is_dead_row ns r = any (λ n. n.task_id == r.id) ns && statuses_in retryable_dead_statuses r.status

-- Whether the locking read finds a row that the plain read has found as it was: in its status and at
-- its epoch.
abbrev pub is_unchanged : OxTask → OxTask → Bool
is_unchanged r x = status_eq x.status r.status && x.lease_epoch == r.lease_epoch

-- Each row of `dead` is in the status and at the epoch of the plain read, where the lock finds it.
unfoldable pub still_dead : (dead held : Table) → Bool
still_dead [] held = true
still_dead (r ∷ dead) held =
    let rest = still_dead dead held in
    not (any (λ x. x.id == r.id && not (is_unchanged r x)) held) && rest

abbrev pub total_of : Option ℕ → List Node → ℕ
total_of none ns = length ns
total_of (some n) ns = n

abbrev pub has_generation : ℕ → List (ℕ × Completion) → Bool
has_generation g cs = any (λ c. c.0 == g) cs

-- The entry for the generation, unless there is one.
unfoldable pub with_completion : ℕ → Completion → List (ℕ × Completion) → List (ℕ × Completion)
with_completion g c cs = if has_generation g cs then cs else cs ++ (g, c) ∷ []

-- The row of a workflow that completes, with the callbacks' ids.
unfoldable pub completed_row :
    (now : ℕ)
    → (c : Classes) → (total unattributed : ℕ) → (callback success : Option ℕ) → WorkflowRow
    → WorkflowRow
unfolding with_completion
completed_row now c total unattributed callback success row = record row {
  status = complete;
  completed_at = some now;
  failed_count = some c.failed;
  cancelled_count = some c.discarded_rows;
  total_count = some total;
  callback_task_id = callback;
  success_task_id = success;
  completions =
      with_completion row.generation
        (record {
          total = total;
          succeeded = c.succeeded;
          failed = c.failed;
          cancelled = c.discarded_rows;
          unattributed = unattributed;
          callback_task_id = callback;
          success_task_id = success;
          completed_at = now;
        })
        row.completions;
}

abbrev pub unattributed_of : Workflow → Classes → ℕ
unattributed_of w c = total_of w.row.total_count (nodes_of w) - (c.succeeded + c.failed)

abbrev pub with_tasks : Table → Flow → Flow
with_tasks t f = record f { tasks = t }

-- _complete_once from the counts on: the callbacks, the last UPDATE and the end of the scan row.
unfoldable pub finish :
    (accepts : Call → Bool) → (id1 id2 now : ℕ) → Classes → Workflow → Workflow × Answer
unfolding completed_row
finish accepts id1 id2 now c w =
    let total = total_of w.row.total_count (nodes_of w) in
    let unattributed = unattributed_of w c in
    elim (enqueue_callback accepts w.row.on_complete id1 now w.flow.tasks) [
      | none ↦ (w, refused callback_refused)
      | some (callback, t1) ↦
          elim (enqueue_callback accepts (success_call c.failed unattributed w.row.on_success) id2
            now t1) [
              | none ↦ (w, refused callback_refused)
              | some (success, t2) ↦ (
                record w {
                  row = completed_row now c total unattributed callback success w.row;
                  scans = select (λ s. not (s == w.row.id)) w.scans;
                  flow = with_tasks t2 w.flow;
                },
                completed c.failed c.discarded_rows unattributed,
              )
            ]
    ]

-- _complete_once: the plain read of the dead rows goes by the table `read`, the locking read by
-- `held`, and the counts by the state that the transaction has come to. `locks` says whether the
-- database has row locks.
unfoldable pub complete_once :
    (locks : Bool)
    → (accepts : Call → Bool) → (id1 id2 now : ℕ) → (read held : Table) → Workflow
    → Workflow × Answer
unfolding is_dead_row still_dead classify finish
complete_once locks accepts id1 id2 now read held w =
    let dead = select (is_dead_row (nodes_of w)) read in
    let c = classify (nodes_of w) w.flow.tasks in
    if not (is_sealed w.row.status)
    then (w, nothing_to_do)
    else if locks && not (still_dead dead held)
    then (w, nothing_to_do)
    else if c.pending == 0 && c.repair == 0 && c.dead_rows == length dead
    then finish accepts id1 id2 now c w
    else (w, nothing_to_do)
