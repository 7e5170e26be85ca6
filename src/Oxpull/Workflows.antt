-- ===== src/Oxpull/Workflows.antt =====
-- src/oxpull/workflows.py: the nodes and edges of the workflows of one database, beside the task table;
-- what add(), a recorded outcome and the recheck of a node write to them, and what the claim reads.
use django_ox.Prelude.{
  ℕ, Bool, true, false, ◌&&◌, ◌||◌, not, Option, none, some, List, [], ◌∷◌, ◌++◌, ltb, ◌==◌,
  if◌then◌else◌, any, map, select, is_null,
}
use django_ox.Store.{Table, Status, successful, lost, waiting, status_eq, first}
use django_ox.Waiting.{Call, enqueue, backend_enqueue, release}
use django_ox.Actions.{ResultId}
pub mod Records
pub mod Steps
pub mod Proven
pub mod Gate
pub mod Classes
pub mod Cancel
pub mod Release
pub mod Retire
pub mod Behind
pub mod Reconcile
pub mod Retained
pub mod Prune
pub mod Row
pub mod Completion
pub mod Progress

-- OxpullWorkflowEdge.
pub record Edge : Type 0 where
  pub workflow : ℕ
  pub upstream : ℕ
  pub downstream : ℕ
  pub satisfied : Bool

-- OxpullWorkflowNode, and its record.
pub record Node : Type 0 where
  pub workflow : ℕ
  pub name : ℕ
  pub task_id : ℕ
  pub outcome : Option Status
  pub outcome_epoch : Option ℕ
  pub succeeded : Bool

pub record Flow : Type 0 where
  pub nodes : List Node
  pub edges : List Edge
  pub tasks : Table

abbrev pub has_outcome : Status → Option Status → Bool
has_outcome s none = false
has_outcome s (some o) = status_eq o s

-- outcome_accepts_q, as the condition of the guarded UPDATE.
unfoldable pub outcome_accepts : Status → ℕ → Node → Bool
outcome_accepts status epoch n = elim n.outcome_epoch [
  | none ↦ true
  | some e ↦
      ltb e epoch
      || (e == epoch
          && (is_null n.outcome || (not (status_eq status lost) && has_outcome lost n.outcome)))
]

-- record_takes, its early returns in order.
unfoldable pub record_takes : Option Status → Option ℕ → Status → ℕ → Bool
record_takes outcome none status epoch = true
record_takes outcome (some e) status epoch =
    if ltb e epoch
    then true
    else if ltb epoch e
    then false
    else is_null outcome || (has_outcome lost outcome && not (status_eq status lost))

abbrev pub recorded : Status → ℕ → Node → Node
recorded status epoch n = record n {
  outcome = some status;
  outcome_epoch = some epoch;
  succeeded = status_eq status successful;
}

-- record_outcome, for the node of the task.
unfoldable pub record_outcome : (task_id : ℕ) → Status → ℕ → List Node → List Node
record_outcome task_id status epoch nodes =
    map
      (λ n.
        if n.task_id == task_id && outcome_accepts status epoch n
        then recorded status epoch n
        else n)
      nodes

-- _mark_satisfied, for the edges that pass `wanted`.
unfoldable pub mark_satisfied : (wanted : Edge → Bool) → List Edge → List Edge
mark_satisfied wanted edges =
    map (λ e. if wanted e && not e.satisfied then record e { satisfied = true } else e) edges

-- record_node_outcome; the ids in the order of the edges.
unfoldable pub record_node_outcome : (task_id : ℕ) → Status → ℕ → Flow → Flow × Option (List ℕ)
record_node_outcome task_id status epoch f =
    if not (any (λ n. n.task_id == task_id) f.nodes)
    then (f, none)
    else (let nodes = record_outcome task_id status epoch f.nodes in
        let out = select (λ e. e.upstream == task_id && not e.satisfied) f.edges in
        if status_eq status successful
        then (
          record f { nodes = nodes; edges = mark_satisfied (λ e. e.upstream == task_id) f.edges },
          some (map (λ (e : Edge). e.downstream) out),
        )
        else (record f { nodes = nodes }, some []))

-- The row is there and SUCCESSFUL, or it is gone and its node's record says so.
unfoldable pub succeeded_or_recorded : Flow → ℕ → Bool
succeeded_or_recorded f id = elim (first (λ r. r.id == id) f.tasks) [
  | some r ↦ status_eq r.status successful
  | none ↦ any (λ n. n.task_id == id && has_outcome successful n.outcome) f.nodes
]

-- _satisfy_edges_into: what it read, and the marks on the edges as they are by then.
unfoldable pub satisfy_edges_into : (ids : List ℕ) → (read held : Flow) → Flow
satisfy_edges_into ids read held = record held {
  edges =
      mark_satisfied
        (λ e. any (λ i. i == e.downstream) ids && succeeded_or_recorded read e.upstream) held.edges;
}

-- _succeeded_among.
unfoldable pub succeeded_among : Table → ℕ → Bool
succeeded_among t id = any (λ r. r.id == id && status_eq r.status successful) t

-- _release_added_node, with the epoch that the row says. The id is a UUID, so nothing is parsed.
unfoldable pub release_added_node : (id now : ℕ) → Table → Table
unfolding release
release_added_node id now t = elim (first (λ r. r.id == id && status_eq r.status waiting) t) [
  | none ↦ t
  | some r ↦ (release (λ s. none) now (ResultId.uuid id) r.lease_epoch t).0
]

-- The edges into a node that add() inserts, satisfied where the upstream reads SUCCESSFUL.
abbrev pub edges_into : (workflow id : ℕ) → Table → List ℕ → List Edge
edges_into workflow id t upstreams =
    map
      (λ u. record {
        workflow = workflow;
        upstream = u;
        downstream = id;
        satisfied = succeeded_among t u;
      })
      upstreams

-- The row of a node: READY without a dependency, else WAITING, and released at once where each
-- upstream has succeeded.
abbrev pub node_row : (id : ℕ) → Call → (now : ℕ) → (upstreams : List ℕ) → Table → Table
node_row id call now [] t = backend_enqueue id call now t
node_row id call now (u ∷ us) t =
    let t1 = enqueue id call now t in
    if any (λ v. not (succeeded_among t1 v)) (u ∷ us) then t1 else release_added_node id now t1

-- _add_once, from the resolved dependencies on: the row, the node, and an edge for each dependency.
unfoldable pub add_once :
    (workflow name id : ℕ) → Call → (now : ℕ) → (upstreams : List ℕ) → Flow → Flow
unfolding release_added_node backend_enqueue enqueue
add_once workflow name id call now upstreams f = record f {
  nodes =
      f.nodes
      ++ record {
        workflow = workflow;
        name = name;
        task_id = id;
        outcome = none;
        outcome_epoch = none;
        succeeded = false;
      }
        ∷ [];
  edges = f.edges ++ edges_into workflow id f.tasks upstreams;
  tasks = node_row id call now upstreams f.tasks;
}

-- _blocking_edges, and runnable_filter_q.
unfoldable pub is_blocking : Table → ℕ → Edge → Bool
is_blocking t pk e = e.downstream == pk && not e.satisfied && not (succeeded_among t e.upstream)

unfoldable pub is_runnable : Flow → ℕ → Bool
is_runnable f pk = not (any (is_blocking f.tasks pk) f.edges)
