-- ===== src/Oxpull/Workflows/Progress.antt =====
-- src/oxpull/workflows.py: Workflow.progress.
use django_ox.Prelude.{ℕ, ◌+◌, ◌-◌, Bool, ◌&&◌, ◌||◌, none, some, List, ◌==◌, any, length}
use django_ox.Store.{OxTask, ready, waiting, status_eq, matched}
use django_ox.Oxpull.Batches.{max}
use django_ox.Oxpull.Workflows.{Node, Flow, is_blocking}
use django_ox.Oxpull.Workflows.Classes.{classify}
use django_ox.Oxpull.Workflows.Row.{Workflow, nodes_of}

-- WorkflowProgress.
pub record WorkflowProgress : Type 0 where
  pub total : ℕ
  pub pending : ℕ
  pub blocked : ℕ
  pub succeeded : ℕ
  pub failed : ℕ

-- The part of pending that cannot run: WAITING, or READY behind a blocking edge.
unfoldable pub is_blocked : Flow → List Node → OxTask → Bool
unfolding is_blocking
is_blocked f ns r =
    any (λ n. n.task_id == r.id) ns
    && (status_eq r.status waiting
        || (status_eq r.status ready && any (is_blocking f.tasks r.id) f.edges))

-- Workflow.progress. While the workflow is open its nodes are counted first, and classified after,
-- in the state `later`.
unfoldable pub progress : (now later : Workflow) → WorkflowProgress
unfolding classify is_blocked
progress now later =
    let ns = nodes_of later in
    let c = classify ns later.flow.tasks in
    record {
      total = elim now.row.total_count [ some n ↦ n | none ↦ max (length (nodes_of now)) c.nodes ];
      pending = c.pending;
      blocked = matched (is_blocked later.flow ns) later.flow.tasks;
      succeeded = c.succeeded;
      failed = c.failed;
    }

-- WorkflowProgress.unattributed.
abbrev pub shortfall_of : WorkflowProgress → ℕ
shortfall_of p = p.total - (p.pending + p.succeeded + p.failed)
