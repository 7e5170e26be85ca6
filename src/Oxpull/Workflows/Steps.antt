-- ===== src/Oxpull/Workflows/Steps.antt =====
-- The transactions that write the nodes and edges of workflows, and what can run between them.
use django_ox.Prelude.{ℕ, ◌≡◌, Bool, true, List, [], ◌∷◌, In}
use django_ox.Store.{Table, Status, successful, status_eq}
use django_ox.Waiting.{Call}
use django_ox.Oxpull.Workflows.Cancel.{cancel_level, repair_records}
use django_ox.Oxpull.Workflows.{
  Flow, record_node_outcome, satisfy_edges_into, succeeded_among, add_once,
}
use django_ox.Oxpull.Workflows.Retire.{retire_chunk}

-- In one of these states the task's row was SUCCESSFUL.
abbrev pub HasSucceeded : List Flow → ℕ → Type 0
HasSucceeded fs id = (f : Flow) × In f fs × (succeeded_among f.tasks id ≡ true)

-- One transaction, on the state `f` with the states before it: of a worker, an operator or a prune on
-- the task table; the record of an outcome that the row has; a recheck, which may go by an earlier
-- read; the reconciler's cancellation, its repair by an earlier read, or the
-- retirement of nodes; or an add().
pub data Step (f : Flow) (past : List Flow) : Flow → Type 0 where
  runs : (t : Table) → Step f past (record f { tasks = t })
  records :
      (task_id : ℕ) (status : Status) (epoch : ℕ)
      → (status_eq status successful ≡ true → succeeded_among f.tasks task_id ≡ true)
      → Step f past (record_node_outcome task_id status epoch f).0
  rechecks :
      (ids : List ℕ) (read : Flow)
      → In read (f ∷ past)
      → Step f past (satisfy_edges_into ids read f)
  cancels :
      (key : ℕ → ℕ) (now : ℕ) (others : ℕ → Table → Table) (workflow : ℕ) (seen held : Flow)
      → Step f past (cancel_level key now others workflow seen held f).0
  repairs :
      (workflow : ℕ) (seen : Flow)
      → In seen (f ∷ past)
      → Step f past (repair_records workflow seen f)
  retires :
      (pick : ℕ → Bool) (workflow : ℕ) (seen read : Flow)
      → In seen (f ∷ past)
      → Step f past (retire_chunk pick workflow seen read.tasks f)
  adds :
      (workflow name id : ℕ) (call : Call) (now : ℕ) (upstreams : List ℕ)
      → Step f past (add_once workflow name id call now upstreams f)

-- The states from one without workflows on, the latest first.
pub data History : Flow → List Flow → Type 0 where
  start : (t : Table) → History (record { nodes = []; edges = []; tasks = t }) []
  on : {f g : Flow} {past : List Flow} → History f past → Step f past g → History g (f ∷ past)
