-- ===== src/Oxpull/Workflows/Reconcile.antt =====
-- src/oxpull/workflows.py: what a tick of the reconciler does to one sealed workflow: _cancel_unreachable
-- and _complete_if_finished.
use django_ox.Prelude.{ℕ, zero, suc, ◌+◌, Bool, not, ◌==◌, if◌then◌else◌, any}
use django_ox.Store.{Table}
use django_ox.Waiting.{Call}
use django_ox.Oxpull.Batches.{is_sealed}
use django_ox.Oxpull.Workflows.{Flow}
use django_ox.Oxpull.Workflows.Classes.{classify}
use django_ox.Oxpull.Workflows.Cancel.{is_cancellable, cancel_level, repair_records}
use django_ox.Oxpull.Workflows.Row.{Workflow, Answer, nothing_to_do, nodes_of}
use django_ox.Oxpull.Workflows.Completion.{complete_once}
pub mod Level
pub mod Fixpoint
pub mod Settled

-- _cancel_one_level: the no-op UPDATE of a SEALED row, and the rest of the transaction.
unfoldable pub cancel_one_level :
    (key : ℕ → ℕ)
    → (now : ℕ) → (others : ℕ → Table → Table) → (seen held : Flow) → Workflow
    → Workflow × ℕ
unfolding cancel_level
cancel_one_level key now others seen held w =
    if is_sealed w.row.status
    then (let (f, moved) = cancel_level key now others w.row.id seen held w.flow in
        (record w { flow = f }, moved))
    else (w, 0)

abbrev pub max_cancel_passes : ℕ
max_cancel_passes = 64

-- The loop of _cancel_unreachable, where no other session writes: every level goes by the tables as
-- the level before has left them.
unfoldable pub cancel_levels : (fuel : ℕ) → (key : ℕ → ℕ) → (now : ℕ) → Workflow → Workflow × ℕ
unfolding cancel_one_level
cancel_levels zero key now w = (w, 0)
cancel_levels (suc fuel) key now w =
    let (w1, moved) = cancel_one_level key now (λ k t. t) w.flow w.flow w in
    let (w2, more) = cancel_levels fuel key now w1 in
    if moved == 0 then (w1, 0) else (w2, moved + more)

abbrev pub any_cancellable : Workflow → Bool
any_cancellable w = any (is_cancellable w.row.id w.flow) w.flow.edges

-- _cancel_unreachable, with the bound on its passes.
unfoldable pub cancel_within : (passes : ℕ) → (key : ℕ → ℕ) → (now : ℕ) → Workflow → Workflow × ℕ
unfolding is_cancellable cancel_levels
cancel_within passes key now w =
    if any_cancellable w then cancel_levels passes key now w else (w, 0)

unfoldable pub cancel_unreachable : (key : ℕ → ℕ) → (now : ℕ) → Workflow → Workflow × ℕ
unfolding cancel_within
cancel_unreachable key now w = cancel_within max_cancel_passes key now w

-- _complete_if_finished: the classification of what it sees outside of any transaction, and then the
-- repair, or the completing transaction. The release behind a repair is a transaction of its own.
unfoldable pub complete_if_finished :
    (locks : Bool)
    → (accepts : Call → Bool) → (id1 id2 now : ℕ) → (seen : Workflow) → (read held : Table)
    → Workflow
    → Workflow × Answer
unfolding classify repair_records complete_once
complete_if_finished locks accepts id1 id2 now seen read held w =
    let c = classify (nodes_of seen) seen.flow.tasks in
    if not (c.repair == 0)
    then (record w { flow = repair_records w.row.id seen.flow w.flow }, nothing_to_do)
    else if not (c.pending == 0)
    then (w, nothing_to_do)
    else complete_once locks accepts id1 id2 now read held w
