-- ===== src/Oxpull/Workflows/Prune.antt =====
-- src/oxpull/workflows.py: which workflows oxpull_prune visits, and what it would delete of one:
-- retirable_workflows, _prune_can_act_q and retirable_rows.
use django_ox.Prelude.{
  ℕ, ◌≡◌, Bool, true, false, ◌&&◌, ◌||◌, not, ◌==◌, ◌⊎◌, ◌↔◌, Option, none, some, List, map, select,
  any, length, sort, leb, ltb, if◌then◌else◌, is_null, arith,
}
use django_ox.Store.{
  OxTask, ready, running, failed, successful, lost, discarded, waiting, statuses_in,
}
use django_ox.Oxpull.Workflows.{Edge, Node, Flow}
use django_ox.Oxpull.Workflows.Classes.{
  recorded_node, unknown_node, kind, row_of, row_taken, has_row_in, classify,
  retryable_dead_statuses,
}
use django_ox.Oxpull.Workflows.Retire.{retirable_statuses}
use django_ox.Oxpull.Workflows.Row.{WorkflowRow, is_of}
use django_ox.Oxpull.Workflows.Retained.{is_complete}

-- _prune_can_act_q, on a node and its row.
unfoldable prune_can_act : Node → Option OxTask → Bool
unfolding row_taken
prune_can_act n none = not (is_null n.outcome)
prune_can_act n (some r) =
    not (statuses_in retryable_dead_statuses r.status)
    || (statuses_in retryable_dead_statuses r.status && row_taken n r.status r.lease_epoch)

abbrev is_past : (cutoff : ℕ) → Option ℕ → Bool
is_past cutoff none = false
is_past cutoff (some at) = ltb at cutoff

-- A COMPLETE workflow from before the cutoff that is not stamped, or with a node that can be acted on.
unfoldable is_visited : (cutoff : ℕ) → Flow → WorkflowRow → Bool
unfolding prune_can_act
is_visited cutoff f w =
    is_complete w.status
    && is_past cutoff w.completed_at
    && (is_null w.metadata_retired_at
        || any (λ n. n.workflow == w.id && prune_can_act n (row_of f.tasks n)) f.nodes)

unfoldable retirable_workflows : (cutoff : ℕ) → Flow → List WorkflowRow → List ℕ
unfolding is_visited sort
retirable_workflows cutoff f ws =
    sort leb (map (λ (w : WorkflowRow). w.id) (select (is_visited cutoff f) ws))

-- RetiredRows.
record RetiredRows : Type 0 where
  nodes : ℕ
  edges : ℕ
  pending : Bool

-- The nodes that retirable_rows counts.
abbrev counts_as_going : Flow → Node → Bool
counts_as_going f n =
    has_row_in retirable_statuses (row_of f.tasks n)
    || (is_null (row_of f.tasks n) && not (is_null n.outcome))

unfoldable retirable_rows : (workflow : ℕ) → Flow → RetiredRows
unfolding classify
retirable_rows workflow f =
    let ns = select (is_of workflow) f.nodes in
    let going = select (counts_as_going f) ns in
    if not ((classify ns f.tasks).pending == 0)
    then record { nodes = 0; edges = 0; pending = true }
    else record {
      nodes = length going;
      edges = length (
          select
            (λ (e : Edge). e.workflow == workflow && any (λ n. n.task_id == e.downstream) going)
            f.edges);
      pending = false;
    }

-- A visit has nothing to do for a node that is gone without a record, or that is FAILED or LOST with a
-- record that says so, by the classes that completion has; and it has for every other.
prune_can_act_iff :
    (n : Node) (row : Option OxTask)
    → (prune_can_act n row ≡ false) ↔ (
        (kind n row ≡ unknown_node)
        ⊎ ((kind n row ≡ recorded_node) × (has_row_in retryable_dead_statuses row ≡ true)))
unfolding prune_can_act kind
prune_can_act_iff n none = ground arith
prune_can_act_iff n (some r) = elim r.status [
  | ready ↦ ground arith
  | running ↦ ground arith
  | failed ↦ ground arith
  | successful ↦ ground arith
  | lost ↦ ground arith
  | discarded ↦ ground arith
  | waiting ↦ ground arith
]
