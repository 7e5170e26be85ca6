-- ===== src/Oxpull/Workflows/Completion/Life.antt =====
-- What a workflow goes through: its own operations, of any number of sessions, and whatever becomes of
-- the task table and of the nodes and edges of all workflows between them.
use django_ox.Prelude.{
  ℕ, ◌≡◌, refl, Bool, true, false, ◌==◌, not, Option, none, some, Option-cases, Bool-cases, inl,
  inr, List, [], ◌∷◌, ◌&&◌, select, length, ◌⊎◌, arith,
}
use django_ox.Store.{Table}
use django_ox.Waiting.{Call}
use django_ox.Oxpull.Batches.{open_, is_sealed, enqueue_callback, success_call}
use django_ox.Oxpull.Batches.Once.{refused_call}
use django_ox.Oxpull.Workflows.{Flow}
use django_ox.Oxpull.Workflows.Steps.{
  Step, runs, records, rechecks, cancels, repairs, retires, adds, History,
}
use django_ox.Oxpull.Workflows.Classes.{Classes, classify}
use django_ox.Oxpull.Workflows.Row.{
  Workflow, nodes_of, add, seal, completed, nothing_to_do, refused, callback_refused,
}
use django_ox.Oxpull.Workflows.Completion.{
  complete_once, finish, completed_row, total_of, unattributed_of, with_tasks, is_dead_row,
  still_dead,
}

abbrev pub changes_nodes_of : {f g : Flow} {past : List Flow} → ℕ → Step f past g → Bool
changes_nodes_of id (runs t) = false
changes_nodes_of id (records task_id status epoch h) = false
changes_nodes_of id (rechecks ids read i) = false
changes_nodes_of id (cancels key now others workflow seen held) = false
changes_nodes_of id (repairs workflow seen i) = false
changes_nodes_of id (retires pick workflow seen read i) = workflow == id
changes_nodes_of id (adds workflow name node call now upstreams) = workflow == id

-- One transaction that commits, until the workflow is retired: its own, or another that leaves it its
-- nodes.
pub data Change (w : Workflow) (past : List Flow) : Workflow → Type 0 where
  adding :
      (name id : ℕ) (call : Call) (now : ℕ) (wanted : List ℕ)
      → Change w past (add name id call now wanted w).0
  sealing : (scheduled : Bool) (now : ℕ) → Change w past (seal scheduled now w).0
  completing :
      (locks : Bool) (accepts : Call → Bool) (id1 id2 now : ℕ) (read held : Table)
      → Change w past (complete_once locks accepts id1 id2 now read held w).0
  elsewhere :
      {g : Flow} (s : Step w.flow past g) (scans : List ℕ)
      → changes_nodes_of w.row.id s ≡ false
      → Change w past (record w { flow = g; scans = scans })

-- The life of a workflow that was created without nodes, with the states of the tables before it.
pub data Life : Workflow → List Flow → Type 0 where
  created :
      {w : Workflow} {past : List Flow}
      → History w.flow past
      → w.row.status ≡ open_
      → w.row.node_count ≡ 0
      → w.row.total_count ≡ none
      → nodes_of w ≡ []
      → Life w past
  goes_on :
      {w v : Workflow} {past : List Flow} → Life w past → Change w past v → Life v (w.flow ∷ past)

-- The two ends of `finish`: an enqueue is refused and nothing is written, or both callbacks are
-- enqueued and the row is complete.
abbrev pub Finishes : (accepts : Call → Bool) → (id1 id2 now : ℕ) → Classes → Workflow → Type 0
Finishes accepts id1 id2 now c w =
    let total = total_of w.row.total_count (nodes_of w) in
    let unattributed = unattributed_of w c in
    (callback : Option ℕ) × (t1 : Table) × (success : Option ℕ) × (t2 : Table) × (scans : List ℕ)
    × (enqueue_callback accepts (success_call c.failed unattributed w.row.on_success) id2 now t1
        ≡ some (success, t2))
    × (finish accepts id1 id2 now c w ≡ (
      record w {
        row = completed_row now c total unattributed callback success w.row;
        scans = scans;
        flow = with_tasks t2 w.flow;
      },
      completed c.failed c.discarded_rows unattributed,
    ))

pub finish_cases :
    (accepts : Call → Bool) (id1 id2 now : ℕ) (c : Classes) (w : Workflow)
    → ((finish accepts id1 id2 now c w ≡ (w, refused callback_refused))
        × ((call : Call) × (accepts call ≡ false)))
      ⊎ Finishes accepts id1 id2 now c w
unfolding finish
finish_cases accepts id1 id2 now c w =
    elim (Option-cases (enqueue_callback accepts w.row.on_complete id1 now w.flow.tasks)) [
      | inl e ↦
          inl (rw (finish, e) refl, refused_call accepts w.row.on_complete id1 now w.flow.tasks e)
      | inr ((callback, t1), e) ↦
          let call = success_call c.failed (unattributed_of w c) w.row.on_success in
          elim (Option-cases (enqueue_callback accepts call id2 now t1)) [
            | inl q ↦ inl (rw (finish, e, q) refl, refused_call accepts call id2 now t1 q)
            | inr ((success, t2), q) ↦ inr (
              callback,
              t1,
              success,
              t2,
              select (λ s. not (s == w.row.id)) w.scans,
              q,
              rw (finish, e, q) refl,
            )
          ]
    ]

-- What completion needs besides the callbacks.
abbrev pub Completes : (locks : Bool) → (read held : Table) → Workflow → Type 0
Completes locks read held w =
    let dead = select (is_dead_row (nodes_of w)) read in
    let c = classify (nodes_of w) w.flow.tasks in
    (is_sealed w.row.status ≡ true)
    × (locks ≡ true → still_dead dead held ≡ true)
    × (c.pending ≡ 0)
    × (c.repair ≡ 0)
    × (c.dead_rows ≡ length dead)

-- A transaction of completion changes nothing, or comes to its callbacks.
pub complete_once_cases :
    (locks : Bool) (accepts : Call → Bool) (id1 id2 now : ℕ) (read held : Table) (w : Workflow)
    → let r = complete_once locks accepts id1 id2 now read held w in
      (r ≡ (w, nothing_to_do))
      ⊎ (Completes locks read held w
          × (r ≡ finish accepts id1 id2 now (classify (nodes_of w) w.flow.tasks) w))
unfolding complete_once
complete_once_cases locks accepts id1 id2 now read held w =
    let dead = select (is_dead_row (nodes_of w)) read in
    let c = classify (nodes_of w) w.flow.tasks in
    elim (Bool-cases (is_sealed w.row.status)) [
      | inr e ↦ inl (rw e refl)
      | inl e ↦ elim (Bool-cases (locks && not (still_dead dead held))) [
        | inl l ↦ inl (rw (e, l) refl)
        | inr l ↦
            elim (Bool-cases (c.pending == 0 && c.repair == 0 && c.dead_rows == length dead)) [
              | inr q ↦ inl (rw (e, l, q) refl)
              | inl q ↦ inr (
                (e, (λ k. ground arith), ground arith, ground arith, ground arith),
                rw (e, l, q) refl,
              )
            ]
      ]
    ]
