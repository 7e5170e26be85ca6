-- ===== src/Oxpull/Workflows/Cancel.antt =====
-- src/oxpull/workflows.py: what the reconciler writes for the nodes of a workflow: the cancellation of
-- the nodes behind an upstream that settled without succeeding, and the records no worker wrote.
use django_ox.Prelude.{
  ℕ, Bool, false, ◌&&◌, ◌||◌, not, Option, none, some, List, [], ◌∷◌, ◌==◌, if◌then◌else◌, any, map,
  select, is_null,
}
use django_ox.Store.{OxTask, Table, Status, successful, discarded, status_eq, statuses_in, first}
use django_ox.Actions.{ResultId}
use django_ox.Waiting.{cancellable, cancel_many}
use django_ox.Oxpull.Workflows.{Edge, Node, Flow, outcome_accepts, recorded, mark_satisfied}
use django_ox.Oxpull.Workflows.Classes.{dead_statuses, kind, is_repair, row_of, has_row_in}

abbrev pub row_with : Table → ℕ → Option OxTask
row_with t id = first (λ r. r.id == id) t

abbrev pub is_dead_outcome : Option Status → Bool
is_dead_outcome none = false
is_dead_outcome (some s) = statuses_in dead_statuses s

-- The subquery for a node's record, which reads the first row.
abbrev pub outcome_of : List Node → ℕ → Option Status
outcome_of [] id = none
outcome_of (n ∷ ns) id = let rest = outcome_of ns id in if n.task_id == id then n.outcome else rest

-- The upstream's row is in a dead status, or it is gone and its node's record holds one.
unfoldable pub is_dead_upstream : Flow → ℕ → Bool
is_dead_upstream f id = elim (row_with f.tasks id) [
  | some r ↦ statuses_in dead_statuses r.status
  | none ↦ is_dead_outcome (outcome_of f.nodes id)
]

-- _cancellable_edges, as the condition on an edge.
unfoldable pub is_cancellable : (workflow : ℕ) → Flow → Edge → Bool
unfolding is_dead_upstream
is_cancellable workflow f e =
    e.workflow == workflow
    && not e.satisfied
    && is_dead_upstream f e.upstream
    && has_row_in cancellable (row_with f.tasks e.downstream)

-- Steps 2 to 4 of _cancel_one_level: the candidates of the plain read `seen` that are still dead in
-- `held`: by their rows, or by their nodes' records where the read found no row.
unfoldable pub is_doomed : (workflow : ℕ) → (seen held : Flow) → ℕ → Bool
unfolding is_cancellable
is_doomed workflow seen held id =
    any (λ e. e.upstream == id && is_cancellable workflow seen e) seen.edges
    && (if is_null (row_with seen.tasks id)
        then any (λ n. n.task_id == id && is_dead_outcome n.outcome) held.nodes
        else any (λ r. r.id == id && statuses_in dead_statuses r.status) held.tasks)

-- Step 5: the edges that doom, and the READY and WAITING rows behind them, with their epochs.
unfoldable pub dooms : (workflow : ℕ) → (seen held : Flow) → (id : ℕ) → Edge → Bool
unfolding is_doomed
dooms workflow seen held id e =
    e.downstream == id
    && e.workflow == workflow
    && not e.satisfied
    && is_doomed workflow seen held e.upstream

unfoldable pub doomed_pairs : (workflow : ℕ) → (seen held : Flow) → List (ResultId × ℕ)
unfolding dooms
doomed_pairs workflow seen held =
    map (λ r. (ResultId.uuid r.id, r.lease_epoch))
      (select
        (λ r. any (dooms workflow seen held r.id) held.edges && statuses_in cancellable r.status)
        held.tasks)

abbrev pub names : ℕ → List (ResultId × ℕ) → Bool
names id [] = false
names id ((ResultId.uuid n, epoch) ∷ rest) = n == id || names id rest
names id ((ResultId.other s, epoch) ∷ rest) = names id rest

-- _record_cancelled: the nodes of the pairs whose rows are DISCARDED now, at the rows' epochs.
unfoldable pub record_cancelled : List (ResultId × ℕ) → Table → List Node → List Node
record_cancelled pairs t ns =
    map
      (λ n. elim (first (λ r. r.id == n.task_id && status_eq r.status discarded) t) [
        | none ↦ n
        | some r ↦
            if names n.task_id pairs && outcome_accepts discarded r.lease_epoch n
            then recorded discarded r.lease_epoch n
            else n
      ])
      ns

-- Steps 2 to 7 of _cancel_one_level: the plain read, the state the locks hold still, and `f`, on which
-- cancel_many and the records write. What runs between the chunks of cancel_many is `others`.
unfoldable pub cancel_level :
    (key : ℕ → ℕ)
    → (now : ℕ) → (others : ℕ → Table → Table) → (workflow : ℕ) → (seen held f : Flow) → Flow × ℕ
unfolding doomed_pairs cancel_many record_cancelled
cancel_level key now others workflow seen held f =
    let pairs = doomed_pairs workflow seen held in
    let (t, moved) = cancel_many (λ s. none) key now others pairs f.tasks in
    if moved == 0
    then (record f { tasks = t }, 0)
    else (record f { tasks = t; nodes = record_cancelled pairs t f.nodes }, moved)

-- The node that _repair_records_once reads for a task: of the workflow, and behind its row.
abbrev pub repairs : (workflow : ℕ) → Flow → (id : ℕ) → Node → Bool
repairs workflow seen id n =
    n.task_id == id && n.workflow == workflow && is_repair (kind n (row_of seen.tasks n))

abbrev pub is_repaired : (workflow : ℕ) → Flow → ℕ → Bool
is_repaired workflow seen id = any (repairs workflow seen id) seen.nodes

abbrev pub repaired_node : (workflow : ℕ) → Flow → Node → Node
repaired_node workflow seen n = elim (row_with seen.tasks n.task_id) [
  | none ↦ n
  | some r ↦
      if is_repaired workflow seen n.task_id && outcome_accepts r.status r.lease_epoch n
      then recorded r.status r.lease_epoch n
      else n
]

-- _repair_records_once: the rows' statuses and epochs on the nodes as they are by then, and the marks
-- on the edges out of those that succeeded.
unfoldable pub repair_records : (workflow : ℕ) → (seen : Flow) → Flow → Flow
unfolding mark_satisfied outcome_accepts
repair_records workflow seen f = record f {
  nodes = map (repaired_node workflow seen) f.nodes;
  edges =
      mark_satisfied
        (λ e.
          is_repaired workflow seen e.upstream
          && has_row_in (successful ∷ []) (row_with seen.tasks e.upstream))
        f.edges;
}
