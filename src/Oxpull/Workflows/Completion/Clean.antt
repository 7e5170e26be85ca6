-- ===== src/Oxpull/Workflows/Completion/Clean.antt =====
-- When a workflow enqueues on_success.
use django_ox.Prelude.{
  ℕ, ◌+◌, ◌-◌, ◌≡◌, Bool, true, some, inl, inr, List, ◌∷◌, length, arith, All-In, here, In,
  select-In,
}
use django_ox.Store.{Table, successful}
use django_ox.Waiting.{Call}
use django_ox.Oxpull.Batches.Clean.{success_call-clean}
use django_ox.Oxpull.Batches.Counted.{sealed_not_open}
use django_ox.Oxpull.Workflows.{Node, Flow}
use django_ox.Oxpull.Workflows.Steps.{HasSucceeded}
use django_ox.Oxpull.Workflows.Proven.{IsProvenNode, row_of_success}
use django_ox.Oxpull.Workflows.Gate.{History-IsProven}
use django_ox.Oxpull.Workflows.Classes.{classify, counts_as, row_of}
use django_ox.Oxpull.Workflows.Row.{Workflow, is_of, nodes_of, completed}
use django_ox.Oxpull.Workflows.Completion.{complete_once, completed_row, finish, unattributed_of}
use django_ox.Oxpull.Workflows.Completion.Life.{
  Life, Completes, Finishes, complete_once_cases, finish_cases,
}
use django_ox.Oxpull.Workflows.Completion.Counted.{Life-IsCounted}
use django_ox.Oxpull.Workflows.Completion.Shared.{Life-History}
use django_ox.Oxpull.Workflows.Completion.Sums.{every_node_counted, counts_as-proof}

counted-HasSucceeded :
    (f : Flow) (past : List Flow) (n : Node)
    → IsProvenNode (f ∷ past) n
    → counts_as successful n (row_of f.tasks n) ≡ true
    → HasSucceeded (f ∷ past) n.task_id
counted-HasSucceeded f past n w h = elim (counts_as-proof n (row_of f.tasks n) h) [
  | inl o ↦ w o
  | inr (r, e, s) ↦ row_of_success (f ∷ past) f n.task_id r here e s
]

-- A transaction that completes has come to its end with the callbacks enqueued.
pub completed_cases :
    (locks : Bool) (accepts : Call → Bool) (id1 id2 now : ℕ) (read held : Table)
    → (fails cancelled unattributed : ℕ) (w : Workflow)
    → (complete_once locks accepts id1 id2 now read held w).1
      ≡ completed fails cancelled unattributed
    → Completes locks read held w
      × (complete_once locks accepts id1 id2 now read held w
          ≡ finish accepts id1 id2 now (classify (nodes_of w) w.flow.tasks) w)
      × Finishes accepts id1 id2 now (classify (nodes_of w) w.flow.tasks) w
completed_cases locks accepts id1 id2 now read held fails cancelled unattributed w h =
    elim (complete_once_cases locks accepts id1 id2 now read held w) [
      | inl e ↦ absurd (let x = rw e at h in cc)
      | inr (c, e) ↦
          elim (finish_cases accepts id1 id2 now (classify (nodes_of w) w.flow.tasks) w) [
            | inl (q, n) ↦ absurd (let x = rw (e, q) at h in cc)
            | inr f ↦ (c, e, f)
          ]
    ]

-- Through the whole life of a workflow, whatever transactions of any sessions run on it and on the
-- tables: if a completion enqueues on_success, then each node of the workflow had a task row that was
-- SUCCESSFUL, in the state of the completion or an earlier one.
pub success_means_succeeded :
    (locks : Bool) (accepts : Call → Bool) (id1 id2 now : ℕ) (read held : Table)
    → (fails cancelled unattributed id : ℕ) (w : Workflow) (past : List Flow) (n : Node)
    → Life w past
    → (complete_once locks accepts id1 id2 now read held w).1
      ≡ completed fails cancelled unattributed
    → (complete_once locks accepts id1 id2 now read held w).0.row.success_task_id ≡ some id
    → In n w.flow.nodes
    → n.workflow ≡ w.row.id
    → HasSucceeded (w.flow ∷ past) n.task_id
unfolding completed_row
success_means_succeeded locks accepts id1 id2 now read held fails cancelled unattributed id w past n
      r h k i o =
    let c = classify (nodes_of w) w.flow.tasks in
    let (m, e, (callback, t1, success, t2, scans, q, f)) =
      completed_cases locks accepts id1 id2 now read held fails cancelled unattributed w h in
    let enqueued : success ≡ some id = rw (e, f) at k in
    let total : w.row.total_count ≡ some (length (nodes_of w)) =
      rw (sealed_not_open w.row.status m.0) at (Life-IsCounted r).1 in
    let clean =
      success_call-clean accepts c.failed (unattributed_of w c) id id2 now w.row.on_success t1 t2
        (rw enqueued at q) in
    let short : length (nodes_of w) - (c.succeeded + c.failed) ≡ 0 = rw total at clean.1 in
    let each = every_node_counted (nodes_of w) w.flow.tasks (omega arith) in
    let mine : In n (nodes_of w) = select-In (is_of w.row.id) i (ground arith) in
    counted-HasSucceeded w.flow past n
      (All-In (IsProvenNode (w.flow ∷ past)) i (History-IsProven (Life-History r)).0.1)
      (All-In (λ n. counts_as successful n (row_of w.flow.tasks n) ≡ true) mine each)
