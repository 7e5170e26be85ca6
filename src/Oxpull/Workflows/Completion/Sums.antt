-- ===== src/Oxpull/Workflows/Completion/Sums.antt =====
-- The counts of _classify, and what they say of the nodes: how they add up, and what progress() shows.
use django_ox.Prelude.{
  ◌∙◌, ◌+◌, ◌≤◌, ◌≡◌, refl, Bool, true, false, ◌&&◌, not, Option, none, some, is_null, Bool-cases,
  inl, inr, ◌⊎◌, List, [], ◌∷◌, length, arith, All,
}
use django_ox.Store.{
  Table, Status, OxTask, ready, running, successful, failed, lost, discarded, waiting, status_eq,
}
use django_ox.Oxpull.Batches.{is_open}
use django_ox.Oxpull.Workflows.{Node, Flow, has_outcome}
use django_ox.Oxpull.Workflows.Completion.Life.{Life}
use django_ox.Oxpull.Workflows.Completion.Counted.{Life-IsCounted}
use django_ox.Oxpull.Workflows.Classes.{
  classify, row_of, kind, is_pending, settled_as, counts_as, one_if, is_repair,
}
use django_ox.Oxpull.Workflows.Row.{Workflow, nodes_of}
use django_ox.Oxpull.Workflows.Progress.{progress}

pub classify-length : (ns : List Node) (t : Table) → (classify ns t).nodes ≡ length ns
unfolding classify
classify-length [] t = refl
classify-length (n ∷ ns) t = ground (arith, classify-length ns t)

-- A node is counted under at most one heading.
one_heading :
    (pending : Bool) (o : Option Status)
    → one_if pending
        + one_if (not pending && has_outcome successful o)
        + one_if (not pending && has_outcome failed o)
      ≤ 1
one_heading true o = ground arith
one_heading false none = ground arith
one_heading false (some ready) = ground arith
one_heading false (some running) = ground arith
one_heading false (some failed) = ground arith
one_heading false (some successful) = ground arith
one_heading false (some lost) = ground arith
one_heading false (some discarded) = ground arith
one_heading false (some waiting) = ground arith

counted_once :
    (n : Node) (row : Option OxTask)
    → one_if (is_pending (kind n row))
        + one_if (counts_as successful n row)
        + one_if (counts_as failed n row)
      ≤ 1
unfolding counts_as
counted_once n row = one_heading (is_pending (kind n row)) (settled_as n row)

pub classify_adds_up :
    (ns : List Node) (t : Table)
    → let c = classify ns t in c.pending + c.succeeded + c.failed ≤ c.nodes
unfolding classify
classify_adds_up [] t = omega arith
classify_adds_up (n ∷ ns) t = omega (arith, classify_adds_up ns t, counted_once n (row_of t n))

pub every_node_counted :
    (ns : List Node) (t : Table)
    → length ns ≤ (classify ns t).succeeded
    → All (λ n. counts_as successful n (row_of t n) ≡ true) ns
unfolding classify
every_node_counted [] t h = tt
every_node_counted (n ∷ ns) t h =
    let most = classify_adds_up ns t in
    let same = classify-length ns t in
    elim (Bool-cases (counts_as successful n (row_of t n))) [
      | inl e ↦ (e, every_node_counted ns t (let x = rw e at h in omega arith))
      | inr e ↦ absurd (let x = rw e at h in omega arith)
    ]

-- A node that counts under succeeded has a row that is SUCCESSFUL, or a record that says so.
pub counts_as-proof :
    (n : Node) (row : Option OxTask)
    → counts_as successful n row ≡ true
    → (has_outcome successful n.outcome ≡ true)
      ⊎ ((r : OxTask) × (row ≡ some r) × (status_eq r.status successful ≡ true))
unfolding counts_as settled_as
counts_as-proof n none h = inl (ground arith)
counts_as-proof n (some r) h = elim (Bool-cases (is_repair (kind n (some r)))) [
  | inl e ↦ inr (r, refl, let x = rw e at h in ground arith)
  | inr e ↦ elim (Bool-cases (is_null n.outcome)) [
    | inl o ↦ inr (r, refl, let x = rw (e, o) at h in ground arith)
    | inr o ↦ inl (let x = rw (e, o) at h in ground arith)
  ]
]

-- Of a workflow at any time of its life, read while it is open or with the total that its seal froze:
-- what progress() shows as pending, succeeded and failed is within the total.
pub workflow_progress_adds_up :
    (now w : Workflow) (past : List Flow)
    → Life w past
    → (now.row.total_count ≡ none) ⊎ (now.row.total_count ≡ w.row.total_count)
    → let p = progress now w in p.pending + p.succeeded + p.failed ≤ p.total
unfolding progress
workflow_progress_adds_up now w past r h =
    let sum = classify_adds_up (nodes_of w) w.flow.tasks in
    let all = classify-length (nodes_of w) w.flow.tasks in
    let counted = (Life-IsCounted r).1 in
    elim h [
      | inl e ↦ rw e (ground arith)
      | inr e ↦ elim (Bool-cases (is_open w.row.status)) [
        | inl o ↦
            let none_yet : now.row.total_count ≡ none = e ∙ (rw o at counted) in
            rw none_yet (ground arith)
        | inr o ↦
            let frozen : now.row.total_count ≡ some (length (nodes_of w)) = e ∙ (rw o at counted) in
            rw frozen (omega arith)
      ]
    ]
