-- ===== src/Examples/Dag.antt =====
-- A workflow of one node that succeeds, and one of two nodes whose first fails.
use django_ox.Prelude.{◌+◌, ◌≤◌, ◌≡◌, refl, Bool, true, false, none, some, List, [], ◌∷◌, here, inr}
use django_ox.Store.{Table, successful, first}
use django_ox.Waiting.{Call}
use django_ox.Oxpull.Batches.{open_}
use django_ox.Oxpull.Workflows.{
  Flow, add_once, record_node_outcome, record_outcome, succeeded_among, mark_satisfied,
  outcome_accepts,
}
use django_ox.Oxpull.Workflows.Steps.{HasSucceeded, start, runs, records}
use django_ox.Oxpull.Workflows.Classes.{classify, kind, row_taken, settled_as, counts_as}
use django_ox.Oxpull.Workflows.Row.{
  Workflow, WorkflowRow, add, seal, nothing_to_do, refused, workflow_sealed, taken,
  resolve_dependencies,
}
use django_ox.Oxpull.Workflows.Completion.{
  complete_once, finish, completed_row, is_dead_row, still_dead,
}
use django_ox.Oxpull.Workflows.Completion.Life.{Life, created, goes_on, adding, sealing, elsewhere}
use django_ox.Oxpull.Workflows.Completion.Clean.{success_means_succeeded}
use django_ox.Oxpull.Workflows.Completion.Once.{
  workflow_completes_once, IsSameRow, stays, changes, stamping,
}
use django_ox.Oxpull.Workflows.Retained.{stamp_retired}
use django_ox.Oxpull.Workflows.Completion.Sums.{workflow_progress_adds_up}
use django_ox.Oxpull.Workflows.Progress.{progress}
use django_ox.Examples.{a_call, fresh}

abbrev pub workflow_row : WorkflowRow
workflow_row = record {
  id = 5;
  status = open_;
  total_count = none;
  node_count = 0;
  on_complete = none;
  on_success = some a_call;
  failed_count = none;
  cancelled_count = none;
  callback_task_id = none;
  success_task_id = none;
  sealed_at = none;
  completed_at = none;
  generation = 0;
  metadata_retired_at = none;
  completions = [];
}

abbrev nothing_yet : Flow
nothing_yet = record { nodes = []; edges = []; tasks = [] }

abbrev new_workflow : Workflow
new_workflow = record { row = workflow_row; scans = []; flow = nothing_yet }

abbrev with_one : Workflow
with_one = (add 1 7 a_call 100 [] new_workflow).0

abbrev sealed_one : Workflow
sealed_one = (seal true 110 with_one).0

abbrev done_rows : Table
done_rows = record fresh { status = successful; lease_epoch = 1 } ∷ []

abbrev one_done : Workflow
one_done = record sealed_one { flow = record sealed_one.flow { tasks = done_rows } }

abbrev one_recorded : Workflow
one_recorded = record one_done { flow = (record_node_outcome 7 successful 1 one_done.flow).0 }

abbrev before_it : List Flow
before_it = one_done.flow ∷ sealed_one.flow ∷ with_one.flow ∷ nothing_yet ∷ []

one_node_run : Life one_recorded before_it
unfolding succeeded_among add seal
one_node_run =
    goes_on
      (goes_on
        (goes_on
          (goes_on (created {w = new_workflow} (start []) refl refl refl refl)
            (adding 1 7 a_call 100 []))
          (sealing true 110))
        (elsewhere (runs done_rows) [] refl))
      (elsewhere (records 7 successful 1 (λ e. refl)) [] refl)

abbrev pub accepts_all : Call → Bool
accepts_all call = true

success_means_succeeded_example : HasSucceeded (one_recorded.flow ∷ before_it) 7
unfolding complete_once finish completed_row is_dead_row still_dead classify kind row_taken
    settled_as counts_as record_node_outcome record_outcome add add_once seal taken
    resolve_dependencies mark_satisfied outcome_accepts first
success_means_succeeded_example =
    success_means_succeeded true accepts_all 20 21 130 done_rows done_rows 0 0 0 21 one_recorded
      before_it
      (record {
        workflow = 5;
        name = 1;
        task_id = 7;
        outcome = some successful;
        outcome_epoch = some 1;
        succeeded = true;
      })
      one_node_run refl refl here refl

-- A prune stamps the workflow after its completion.
workflow_completes_once_example :
    let w = (complete_once true accepts_all 20 21 130 done_rows done_rows one_recorded).0 in
    let v = (stamp_retired 135 w).0 in
    (complete_once false accepts_all 22 23 140 [] [] v ≡ (v, nothing_to_do))
    × (add 2 8 a_call 140 [] v ≡ (v, refused workflow_sealed))
    × IsSameRow w.row v.row
unfolding complete_once finish completed_row is_dead_row still_dead classify kind row_taken
    settled_as counts_as record_node_outcome record_outcome add add_once seal taken
    resolve_dependencies mark_satisfied outcome_accepts first
workflow_completes_once_example =
    let w = (complete_once true accepts_all 20 21 130 done_rows done_rows one_recorded).0 in
    workflow_completes_once true false accepts_all accepts_all 20 21 130 22 23 140 done_rows
      done_rows [] [] 0 0 0 one_recorded (stamp_retired 135 w).0 before_it (w.flow ∷ before_it) 2 8
      a_call [] refl (changes stays (stamping 135))

workflow_progress_adds_up_example :
    let p = progress one_recorded one_recorded in p.pending + p.succeeded + p.failed ≤ p.total
workflow_progress_adds_up_example =
    workflow_progress_adds_up one_recorded one_recorded before_it one_node_run (inr refl)
