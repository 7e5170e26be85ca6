-- ===== src/Examples/Cones.antt =====
-- A workflow of two nodes whose first fails: the second is discarded, and the workflow completes. And one
-- whose first succeeds: the second is released.
use django_ox.Prelude.{
  ℕ, ◌≡◌, refl, true, false, none, some, [], ◌∷◌, In, here, there, ◌⊎◌, arith, sort, Bool,
}
use django_ox.Store.{
  OxTask, successful, failed, discarded, waiting, statuses_in, first, update, matched,
}
use django_ox.Actions.{discarded_row, pk_of}
use django_ox.Actions.Ids.{chunks, chunks_within}
use django_ox.Waiting.{
  cancellable, released_row, backend_enqueue, cancel_many, release_many, move_pinned_chunks,
}
use django_ox.Waiting.Pinned.{pinned, seen_from, pinned_rows, epochs_of, case_epoch}
use django_ox.Oxpull.Batches.{sealed, complete}
use django_ox.Oxpull.Workflows.{
  Flow, Node, Edge, add_once, record_node_outcome, succeeded_among, mark_satisfied,
}
use django_ox.Oxpull.Workflows.Steps.{HasSucceeded, History, start, on, adds, runs, records}
use django_ox.Oxpull.Workflows.Classes.{classify, kind, row_taken, settled_as, counts_as}
use django_ox.Oxpull.Workflows.Cancel.{
  cancel_level, doomed_pairs, dooms, is_doomed, is_cancellable, is_dead_upstream, record_cancelled,
}
use django_ox.Oxpull.Workflows.Release.{release_chunk, free_pairs, is_held}
use django_ox.Oxpull.Workflows.Behind.{IsDeadIn, cancels_behind_dead, releases_after_dependencies}
use django_ox.Oxpull.Workflows.Retained.{IsStamp, retirement_keeps_gate, retire_stamped, IsKept}
use django_ox.Oxpull.Workflows.Row.{Workflow, completed}
use django_ox.Oxpull.Workflows.Reconcile.{any_cancellable, cancel_unreachable, complete_if_finished}
use django_ox.Oxpull.Workflows.Reconcile.Fixpoint.{cancels_whole_cone}
use django_ox.Oxpull.Workflows.Reconcile.Settled.{settled_workflow_completes}
use django_ox.Examples.{a_call, fresh}
use django_ox.Examples.Dag.{workflow_row, accepts_all}

abbrev first_failed : OxTask
first_failed = record fresh { status = failed; lease_epoch = 1; finished_at = some 150 }

abbrev second_waiting : OxTask
second_waiting = record fresh { id = 8; status = waiting }

abbrev first_node : Node
first_node = record {
  workflow = 5;
  name = 1;
  task_id = 7;
  outcome = some failed;
  outcome_epoch = some 1;
  succeeded = false;
}

abbrev second_node : Node
second_node = record {
  workflow = 5;
  name = 2;
  task_id = 8;
  outcome = none;
  outcome_epoch = none;
  succeeded = false;
}

abbrev an_edge : Edge
an_edge = record { workflow = 5; upstream = 7; downstream = 8; satisfied = false }

abbrev broken : Flow
broken = record {
  nodes = first_node ∷ second_node ∷ [];
  edges = an_edge ∷ [];
  tasks = first_failed ∷ second_waiting ∷ [];
}

abbrev same_key : ℕ → ℕ
same_key n = n

cancels_behind_dead_example :
    In (discarded_row 200 second_waiting) broken.tasks
    ⊎ ((x : OxTask) × In x broken.tasks
        × (discarded_row 200 second_waiting ≡ discarded_row 200 x)
        × (statuses_in cancellable x.status ≡ true)
        × ((e : Edge) × In e broken.edges
            × (e.downstream ≡ x.id)
            × (e.workflow ≡ 5)
            × (e.satisfied ≡ false)
            × IsDeadIn broken broken e.upstream))
unfolding cancel_level cancel_many move_pinned_chunks doomed_pairs dooms is_doomed is_cancellable
    is_dead_upstream first pinned seen_from pk_of sort chunks chunks_within pinned_rows epochs_of
    case_epoch update matched record_cancelled
cancels_behind_dead_example =
    cancels_behind_dead same_key 200 5 broken broken broken (discarded_row 200 second_waiting)
      (there here)

abbrev broken_workflow : Workflow
broken_workflow = record {
  row = record workflow_row { status = sealed; total_count = some 2; node_count = 2 };
  scans = [];
  flow = broken;
}

cancels_whole_cone_example :
    any_cancellable (cancel_unreachable same_key 200 broken_workflow).0 ≡ false
unfolding matched
cancels_whole_cone_example =
    cancels_whole_cone same_key 200 broken_workflow refl ((refl, tt), (tt, tt)) (ground arith)

abbrev settled_workflow : Workflow
settled_workflow = record broken_workflow {
  flow = record {
    nodes =
        first_node ∷ record second_node { outcome = some discarded; outcome_epoch = some 0 } ∷ [];
    edges = an_edge ∷ [];
    tasks = first_failed ∷ discarded_row 200 second_waiting ∷ [];
  };
}

settled_workflow_completes_example :
    let t = settled_workflow.flow.tasks in
    let r = complete_if_finished true accepts_all 30 31 210 settled_workflow t t settled_workflow in
    (r.0.row.status ≡ complete)
    × (r.0.row.failed_count ≡ some 1)
    × (r.0.row.cancelled_count ≡ some 1)
    × ((unattributed : ℕ) × (r.1 ≡ completed 1 1 unattributed))
unfolding classify kind row_taken settled_as counts_as first discarded_row
settled_workflow_completes_example =
    settled_workflow_completes true accepts_all 30 31 210 settled_workflow refl ((refl, (refl, tt)))
      ((refl, tt), (tt, tt)) refl refl (λ call. refl)

abbrev flow_0 : Flow
flow_0 = record { nodes = []; edges = []; tasks = [] }

abbrev flow_1 : Flow
flow_1 = add_once 5 1 7 a_call 100 [] flow_0

abbrev flow_2 : Flow
flow_2 = add_once 5 2 8 a_call 101 (7 ∷ []) flow_1

abbrev flow_3 : Flow
flow_3 = record flow_2 {
  tasks = record fresh { status = successful; lease_epoch = 1 } ∷ second_waiting ∷ [];
}

abbrev flow_4 : Flow
flow_4 = (record_node_outcome 7 successful 1 flow_3).0

two_steps : History flow_4 (flow_3 ∷ flow_2 ∷ flow_1 ∷ flow_0 ∷ [])
unfolding succeeded_among
two_steps =
    on
      (on (on (on (start []) (adds 5 1 7 a_call 100 [])) (adds 5 2 8 a_call 101 (7 ∷ [])))
        (runs (record fresh { status = successful; lease_epoch = 1 } ∷ second_waiting ∷ [])))
      (records 7 successful 1 (λ e. refl))

releases_after_dependencies_example :
    In (released_row 200 second_waiting) flow_4.tasks
    ⊎ (((x : OxTask) × In x flow_4.tasks
          × (released_row 200 second_waiting ≡ released_row 200 x)
          × (x.status ≡ waiting))
        × HasSucceeded (flow_4 ∷ flow_3 ∷ flow_2 ∷ flow_1 ∷ flow_0 ∷ []) 7)
unfolding release_chunk free_pairs is_held release_many move_pinned_chunks pinned seen_from pk_of
    sort chunks chunks_within pinned_rows epochs_of case_epoch update matched released_row
    record_node_outcome mark_satisfied add_once backend_enqueue succeeded_among
releases_after_dependencies_example =
    releases_after_dependencies same_key 200 (8 ∷ []) flow_4 flow_4 flow_4
      (flow_3 ∷ flow_2 ∷ flow_1 ∷ flow_0 ∷ []) (released_row 200 second_waiting)
      (record { workflow = 5; upstream = 7; downstream = 8; satisfied = true }) two_steps here
      (there here) here refl

-- The failed task again, now as the only one of a complete workflow that depends on another.
abbrev retired_workflow : Workflow
retired_workflow = record broken_workflow {
  row = record broken_workflow.row { status = complete; metadata_retired_at = some 900 };
  flow = record broken {
    edges = record { workflow = 5; upstream = 6; downstream = 7; satisfied = true } ∷ an_edge ∷ [];
    tasks = first_failed ∷ [];
  };
}

abbrev pick_all : ℕ → Bool
pick_all id = true

retirement_keeps_gate_example :
    IsKept
      (record { workflow = 5; upstream = 6; downstream = 7; satisfied = true })
      (retire_stamped pick_all broken broken.tasks retired_workflow).flow.edges
    × IsStamp pick_all broken broken.tasks 950 retired_workflow
unfolding first
retirement_keeps_gate_example =
    retirement_keeps_gate pick_all broken broken.tasks 950 retired_workflow
      (record { workflow = 5; upstream = 6; downstream = 7; satisfied = true }) first_failed
      (tt, tt) here here refl refl refl
