-- ===== src/Oxpull/Workflows/Completion/Shared.antt =====
-- A workflow among the others: what its transactions are on the tables that all workflows share.
use django_ox.Prelude.{Option-cases, Bool-cases, inl, inr, List}
use django_ox.Oxpull.Batches.{is_open}
use django_ox.Oxpull.Workflows.{Flow}
use django_ox.Oxpull.Workflows.Steps.{Step, runs, adds, History, on}
use django_ox.Oxpull.Workflows.Classes.{classify}
use django_ox.Oxpull.Workflows.Row.{Workflow, nodes_of, add, seal, resolve_dependencies, taken}
use django_ox.Oxpull.Workflows.Completion.Life.{
  Change, adding, sealing, completing, elsewhere, Life, created, goes_on, finish_cases,
  complete_once_cases,
}

-- The transactions of a workflow are steps of the tables that all workflows share.
Change-Step : (w v : Workflow) (past : List Flow) → Change w past v → Step w.flow past v.flow
unfolding add seal
Change-Step w v past (adding name id call now wanted) = elim (Bool-cases (is_open w.row.status)) [
  | inr q ↦ rw q (runs w.flow.tasks)
  | inl q ↦ elim (Option-cases (resolve_dependencies w.row.id wanted w.flow.nodes)) [
    | inl e ↦ rw (q, e) (runs w.flow.tasks)
    | inr (us, e) ↦ elim (Bool-cases (taken w.row.id name id w.flow.nodes)) [
      | inl t ↦ rw (q, e, t) (runs w.flow.tasks)
      | inr t ↦ rw (q, e, t) (adds w.row.id name id call now us)
    ]
  ]
]
Change-Step w v past (sealing scheduled now) = elim (Bool-cases (is_open w.row.status)) [
  | inr q ↦ rw q (runs w.flow.tasks)
  | inl q ↦ elim (Bool-cases scheduled) [
    | inl k ↦ rw (q, k) (runs w.flow.tasks)
    | inr k ↦ rw (q, k) (runs w.flow.tasks)
  ]
]
Change-Step w v past (completing locks accepts id1 id2 now read held) =
    elim (complete_once_cases locks accepts id1 id2 now read held w) [
      | inl e ↦ rw e (runs w.flow.tasks)
      | inr (h, e) ↦
          elim (finish_cases accepts id1 id2 now (classify (nodes_of w) w.flow.tasks) w) [
            | inl (q, n) ↦ rw (e, q) (runs w.flow.tasks)
            | inr (callback, t1, success, t2, scans, q, f) ↦ rw (e, f) (runs t2)
          ]
    ]
Change-Step w v past (elsewhere s scans e) = s

pub Life-History : {w : Workflow} {past : List Flow} → Life w past → History w.flow past
Life-History (created h o n m e) = h
Life-History (goes_on {w} {v} {past} r k) = on (Life-History r) (Change-Step w v past k)
