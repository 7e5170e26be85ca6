-- ===== src/Oxpull/Workflows/Completion/Counted.antt =====
-- The nodes of a workflow, the count of them that add() keeps, and the total that seal() freezes.
use django_ox.Prelude.{
  ℕ, suc, ◌≡◌, refl, ap, Bool, true, false, ◌==◌, ◌&&◌, none, some, Option-cases, Bool-cases, inl,
  inr, if◌then◌else◌, List, [], ◌∷◌, ◌++◌, map, select, length, arith,
}
use django_ox.Store.{Table, Status}
use django_ox.Waiting.{Call, cancel_many}
use django_ox.Actions.{ResultId}
use django_ox.Oxpull.Batches.{is_open}
use django_ox.Oxpull.Batches.Counted.{sealed_not_open}
use django_ox.Oxpull.Workflows.{
  Node, Flow, record_outcome, record_node_outcome, outcome_accepts, satisfy_edges_into, add_once,
}
use django_ox.Oxpull.Workflows.Retire.{retire_chunk}
use django_ox.Oxpull.Workflows.Cancel.{
  cancel_level, doomed_pairs, record_cancelled, repair_records, repaired_node,
}
use django_ox.Oxpull.Workflows.Steps.{
  Step, runs, records, rechecks, cancels, repairs, retires, adds,
}
use django_ox.Oxpull.Workflows.Classes.{classify}
use django_ox.Oxpull.Workflows.Row.{
  Workflow, is_of, nodes_of, add, seal, resolve_dependencies, taken,
}
use django_ox.Oxpull.Workflows.Completion.{complete_once, completed_row}
use django_ox.Oxpull.Workflows.Completion.Life.{
  changes_nodes_of, Change, adding, sealing, completing, elsewhere, Life, created, goes_on,
  finish_cases, complete_once_cases,
}

-- The number of a workflow's nodes.
abbrev pub count_of : ℕ → List Node → ℕ
count_of id ns = length (select (is_of id) ns)

-- A write that leaves each node in its workflow leaves the number.
count_of-map :
    (id : ℕ) (f : Node → Node)
    → ((n : Node) → (f n).workflow ≡ n.workflow)
    → (ns : List Node) → count_of id (map f ns) ≡ count_of id ns
count_of-map id f h [] = refl
count_of-map id f h (n ∷ ns) = elim (Bool-cases (n.workflow == id)) [
  | inl e ↦ rw (h n, e) (omega (arith, count_of-map id f h ns))
  | inr e ↦ rw (h n, e) (count_of-map id f h ns)
]

count_of-append :
    (id : ℕ) (ns : List Node) (n : Node)
    → n.workflow ≡ id
    → count_of id (ns ++ n ∷ []) ≡ suc (count_of id ns)
count_of-append id [] n e = rw e (ground arith)
count_of-append id (m ∷ ns) n e = elim (Bool-cases (m.workflow == id)) [
  | inl q ↦ rw q (omega (arith, count_of-append id ns n e))
  | inr q ↦ rw q (count_of-append id ns n e)
]

count_of-other :
    (id : ℕ) (ns : List Node) (n : Node)
    → (n.workflow == id) ≡ false
    → count_of id (ns ++ n ∷ []) ≡ count_of id ns
count_of-other id [] n e = rw e refl
count_of-other id (m ∷ ns) n e = elim (Bool-cases (m.workflow == id)) [
  | inl q ↦ rw q (omega (arith, count_of-other id ns n e))
  | inr q ↦ rw q (count_of-other id ns n e)
]

recorded-workflow :
    (task_id : ℕ) (status : Status) (epoch : ℕ) (id : ℕ) (ns : List Node)
    → count_of id (record_outcome task_id status epoch ns) ≡ count_of id ns
unfolding record_outcome
recorded-workflow task_id status epoch id ns =
    count_of-map id _
      (λ n. elim (Bool-cases (n.task_id == task_id && outcome_accepts status epoch n)) [
        | inl e ↦ rw e refl
        | inr e ↦ rw e refl
      ])
      ns

cancelled-workflow :
    (pairs : List (ResultId × ℕ)) (t : Table) (id : ℕ) (ns : List Node)
    → count_of id (record_cancelled pairs t ns) ≡ count_of id ns
unfolding record_cancelled
cancelled-workflow pairs t id ns = count_of-map id _ (λ n. ground arith) ns

repaired-workflow :
    (workflow : ℕ) (seen : Flow) (id : ℕ) (ns : List Node)
    → count_of id (map (repaired_node workflow seen) ns) ≡ count_of id ns
repaired-workflow workflow seen id ns = count_of-map id _ (λ n. ground arith) ns

record_node_outcome-nodes :
    (task_id : ℕ) (status : Status) (epoch id : ℕ) (f : Flow)
    → count_of id (record_node_outcome task_id status epoch f).0.nodes ≡ count_of id f.nodes
unfolding record_node_outcome
record_node_outcome-nodes task_id status epoch id f =
    let same = recorded-workflow task_id status epoch id f.nodes in ground arith

cancel_level-nodes :
    (key : ℕ → ℕ) (now : ℕ) (others : ℕ → Table → Table) (workflow : ℕ) (seen held f : Flow)
    → (id : ℕ)
    → count_of id (cancel_level key now others workflow seen held f).0.nodes ≡ count_of id f.nodes
unfolding cancel_level
cancel_level-nodes key now others workflow seen held f id =
    let pairs = doomed_pairs workflow seen held in
    let (t, moved) = cancel_many (λ s. none) key now others pairs f.tasks in
    elim (Bool-cases (moved == 0)) [
      | inl e ↦ rw e refl
      | inr e ↦ rw e (cancelled-workflow pairs t id f.nodes)
    ]

-- A node of another workflow is not the chunk's to take.
count_of-kept :
    (id : ℕ) (p : Node → Bool)
    → ((n : Node) → (n.workflow == id) ≡ true → p n ≡ true)
    → (ns : List Node) → count_of id (select p ns) ≡ count_of id ns
count_of-kept id p h [] = refl
count_of-kept id p h (n ∷ ns) = elim (Bool-cases (n.workflow == id)) [
  | inl e ↦ rw (h n e, e) (ap suc (count_of-kept id p h ns))
  | inr e ↦ elim (Bool-cases (p n)) [
    | inl q ↦ rw (q, e) (count_of-kept id p h ns)
    | inr q ↦ rw (q, e) (count_of-kept id p h ns)
  ]
]

-- Whatever else runs, only an add() to the workflow and its retirement change how many nodes it has.
Step-nodes :
    {f g : Flow} {past : List Flow} (id : ℕ) (s : Step f past g)
    → changes_nodes_of id s ≡ false
    → count_of id g.nodes ≡ count_of id f.nodes
unfolding satisfy_edges_into repair_records add_once retire_chunk
Step-nodes id (runs t) e = refl
Step-nodes {f} id (records task_id status epoch h) e =
    record_node_outcome-nodes task_id status epoch id f
Step-nodes id (rechecks ids read i) e = refl
Step-nodes {f} id (cancels key now others workflow seen held) e =
    cancel_level-nodes key now others workflow seen held f id
Step-nodes {f} id (repairs workflow seen i) e = repaired-workflow workflow seen id f.nodes
Step-nodes {f} id (retires pick workflow seen read i) e =
    count_of-kept id _
      (λ n h. let other : (n.workflow == workflow) ≡ false = ground arith in rw other refl) f.nodes
Step-nodes {f} id (adds workflow name node call now upstreams) e = count_of-other id f.nodes _ e

-- The count that add() keeps is the number of the nodes, and so is the total from the seal on; before
-- it there is no total.
abbrev pub IsCounted : Workflow → Type 0
IsCounted w =
    (w.row.node_count ≡ length (nodes_of w))
    × (w.row.total_count ≡ (if is_open w.row.status then none else some (length (nodes_of w))))

add-IsCounted :
    (name id : ℕ) (call : Call) (now : ℕ) (wanted : List ℕ) (w : Workflow)
    → IsCounted w
    → IsCounted (add name id call now wanted w).0
unfolding add add_once
add-IsCounted name id call now wanted w c = elim (Bool-cases (is_open w.row.status)) [
  | inr q ↦ rw q c
  | inl q ↦ elim (Option-cases (resolve_dependencies w.row.id wanted w.flow.nodes)) [
    | inl e ↦ rw (q, e) c
    | inr (us, e) ↦ elim (Bool-cases (taken w.row.id name id w.flow.nodes)) [
      | inl t ↦ rw (q, e, t) c
      | inr t ↦
          let more =
            count_of-append w.row.id w.flow.nodes
              (record {
                workflow = w.row.id;
                name = name;
                task_id = id;
                outcome = none;
                outcome_epoch = none;
                succeeded = false;
              })
              refl in
          let total : w.row.total_count ≡ none = rw q at c.1 in rw (q, e, t) (cc, rw q total)
    ]
  ]
]

seal-IsCounted :
    (scheduled : Bool) (now : ℕ) (w : Workflow) → IsCounted w → IsCounted (seal scheduled now w).0
unfolding seal
seal-IsCounted scheduled now w c = elim (Bool-cases (is_open w.row.status)) [
  | inr q ↦ rw q c
  | inl q ↦ elim (Bool-cases scheduled) [
    | inl k ↦ rw (q, k) (c.0, ap some c.0)
    | inr k ↦ rw (q, k) c
  ]
]

complete_once-IsCounted :
    (locks : Bool) (accepts : Call → Bool) (id1 id2 now : ℕ) (read held : Table) (w : Workflow)
    → IsCounted w
    → IsCounted (complete_once locks accepts id1 id2 now read held w).0
unfolding completed_row
complete_once-IsCounted locks accepts id1 id2 now read held w c =
    elim (complete_once_cases locks accepts id1 id2 now read held w) [
      | inl e ↦ rw e c
      | inr ((s, l, p, r, d), e) ↦
          elim (finish_cases accepts id1 id2 now (classify (nodes_of w) w.flow.tasks) w) [
            | inl (q, n) ↦ rw (e, q) c
            | inr (callback, t1, success, t2, scans, q, f) ↦
                let total : w.row.total_count ≡ some (length (nodes_of w)) =
                  rw (sealed_not_open w.row.status s) at c.1 in
                rw (e, f, total) (c.0, refl)
          ]
    ]

pub Change-IsCounted :
    (w v : Workflow) (past : List Flow) → IsCounted w → Change w past v → IsCounted v
Change-IsCounted w v past c (adding name id call now wanted) =
    add-IsCounted name id call now wanted w c
Change-IsCounted w v past c (sealing scheduled now) = seal-IsCounted scheduled now w c
Change-IsCounted w v past c (completing locks accepts id1 id2 now read held) =
    complete_once-IsCounted locks accepts id1 id2 now read held w c
Change-IsCounted w v past c (elsewhere s scans e) =
    let same = Step-nodes w.row.id s e in (cc, rw same c.1)

-- Through the whole life of a workflow, whatever transactions of any sessions run: the count that
-- add() keeps is the number of its nodes, and from its seal on its total is that number too.
pub Life-IsCounted : {w : Workflow} {past : List Flow} → Life w past → IsCounted w
Life-IsCounted (created {w} {past} h o n m e) = (rw (n, e) refl, rw (m, o) refl)
Life-IsCounted (goes_on {w} {v} {past} r k) = Change-IsCounted w v past (Life-IsCounted r) k
