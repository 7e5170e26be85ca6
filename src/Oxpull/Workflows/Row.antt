-- ===== src/Oxpull/Workflows/Row.antt =====
-- src/oxpull/workflows.py and models.py: one workflow's row, and the transactions that hold it while the
-- workflow is open: Workflow.add and seal.
use django_ox.Prelude.{
  ℕ, suc, Bool, ◌&&◌, ◌||◌, not, Option, none, some, List, [], ◌∷◌, ◌==◌, if◌then◌else◌, any,
  select,
}
use django_ox.Waiting.{Call}
use django_ox.Oxpull.Batches.{BatchStatus, sealed, is_open}
use django_ox.Oxpull.Workflows.{Node, Flow, add_once}

-- What completion recorded under a generation.
pub record Completion : Type 0 where
  pub total : ℕ
  pub succeeded : ℕ
  pub failed : ℕ
  pub cancelled : ℕ
  pub unattributed : ℕ
  pub callback_task_id : Option ℕ
  pub success_task_id : Option ℕ
  pub completed_at : ℕ

-- OxpullWorkflow; its status is one of the three of OxpullBatch, and a callback is none where its path
-- is empty.
pub record WorkflowRow : Type 0 where
  pub id : ℕ
  pub status : BatchStatus
  pub total_count : Option ℕ
  pub node_count : ℕ
  pub on_complete : Option Call
  pub on_success : Option Call
  pub failed_count : Option ℕ
  pub cancelled_count : Option ℕ
  pub callback_task_id : Option ℕ
  pub success_task_id : Option ℕ
  pub sealed_at : Option ℕ
  pub completed_at : Option ℕ
  pub generation : ℕ
  pub metadata_retired_at : Option ℕ
  pub completions : List (ℕ × Completion)

-- The row, the workflows of the scan rows, and the tables that all workflows share.
pub record Workflow : Type 0 where
  pub row : WorkflowRow
  pub scans : List ℕ
  pub flow : Flow

abbrev pub is_of : ℕ → Node → Bool
is_of id n = n.workflow == id

abbrev pub nodes_of : Workflow → List Node
nodes_of w = select (is_of w.row.id) w.flow.nodes

-- What an operation gives back; `refused` is an exception that rolled its transaction back.
pub data Refusal : Type 0 where
  workflow_sealed unknown_node node_exists not_scheduled callback_refused : Refusal

pub data Answer : Type 0 where
  done : Answer
  completed : (fails cancelled unattributed : ℕ) → Answer
  nothing_to_do : Answer
  refused : Refusal → Answer

-- known.get(name) of _resolve_dependencies: a later row of the same name replaces an earlier one.
unfoldable pub known : (workflow name : ℕ) → List Node → Option ℕ
known workflow name [] = none
known workflow name (n ∷ ns) = elim (known workflow name ns) [
  | some id ↦ some id
  | none ↦ if n.workflow == workflow && n.name == name then some n.task_id else none
]

-- _resolve_dependencies: none is an UnknownWorkflowNode.
unfoldable pub resolve_dependencies :
    (workflow : ℕ) → (wanted : List ℕ) → List Node → Option (List ℕ)
unfolding known
resolve_dependencies workflow [] ns = some []
resolve_dependencies workflow (name ∷ names) ns = elim (known workflow name ns) [
  | none ↦ none
  | some id ↦ elim (resolve_dependencies workflow names ns) [
    | none ↦ none
    | some ids ↦ some (id ∷ ids)
  ]
]

-- The two unique constraints of the node table.
unfoldable pub taken : (workflow name id : ℕ) → List Node → Bool
taken workflow name id ns =
    any (λ n. (n.workflow == workflow && n.name == name) || n.task_id == id) ns

-- Workflow._add_once: _take_for_add, and the rest of the transaction.
unfoldable pub add :
    (name id : ℕ) → Call → (now : ℕ) → (wanted : List ℕ) → Workflow → Workflow × Answer
unfolding resolve_dependencies taken add_once
add name id call now wanted w =
    if not (is_open w.row.status)
    then (w, refused workflow_sealed)
    else elim (resolve_dependencies w.row.id wanted w.flow.nodes) [
      | none ↦ (w, refused unknown_node)
      | some upstreams ↦ if taken w.row.id name id w.flow.nodes then (w, refused node_exists) else (
        record w {
          row = record w.row { node_count = suc w.row.node_count };
          flow = add_once w.row.id name id call now upstreams w.flow;
        },
        done,
      )
    ]

-- Workflow._seal_once; `scheduled` is _require_reconcile_schedule.
unfoldable pub seal : (scheduled : Bool) → (now : ℕ) → Workflow → Workflow × Answer
seal scheduled now w =
    if not (is_open w.row.status)
    then (w, refused workflow_sealed)
    else if not scheduled
    then (w, refused not_scheduled)
    else (
      record w {
        row = record w.row {
          status = sealed;
          sealed_at = some now;
          total_count = some w.row.node_count;
        };
      },
      done,
    )
