-- ===== src/Oxpull/Workflows/Proven.antt =====
-- Marks and records that stand only for tasks that have succeeded, and what writes them.
use django_ox.Prelude.{
  ℕ, ◌≡◌, inl, inr, Bool, true, ◌&&◌, not, List, [], ◌∷◌, ◌++◌, ◌==◌, any, map, Bool-cases, none,
  some, Option-cases, arith, All, All-In, All-map, In, here, there, any-In, any-witness, In-select,
  head?-In, is_null, All-select,
}
use django_ox.Store.{OxTask, Table, Status, successful, discarded, status_eq, first}
use django_ox.Waiting.{cancel_many}
use django_ox.Actions.{ResultId}
use django_ox.Oxpull.Workflows.Cancel.{
  row_with, cancel_level, doomed_pairs, names, record_cancelled, repair_records, is_repaired,
  repaired_node,
}
use django_ox.Oxpull.Workflows.{
  Edge, Node, Flow, has_outcome, outcome_accepts, record_outcome, mark_satisfied,
  record_node_outcome, succeeded_or_recorded, succeeded_among, edges_into,
}
use django_ox.Oxpull.Workflows.Steps.{HasSucceeded}
use django_ox.Oxpull.Workflows.Retire.{
  retire_chunk, is_going_well, status_under_lock, chunk_has, in_chunk,
}

abbrev pub IsProvenEdge : List Flow → Edge → Type 0
IsProvenEdge fs e = e.satisfied ≡ true → HasSucceeded fs e.upstream

abbrev pub IsProvenNode : List Flow → Node → Type 0
IsProvenNode fs n = has_outcome successful n.outcome ≡ true → HasSucceeded fs n.task_id

-- A mark or a record of success stands only for a task that has succeeded.
abbrev pub IsProven : List Flow → Flow → Type 0
IsProven fs f = All (IsProvenEdge fs) f.edges × All (IsProvenNode fs) f.nodes

HasSucceeded-later :
    (f : Flow) (fs : List Flow) (id : ℕ) → HasSucceeded fs id → HasSucceeded (f ∷ fs) id
HasSucceeded-later f fs id (g, i, s) = (g, there i, s)

pub IsProven-later : (g f : Flow) (fs : List Flow) → IsProven fs f → IsProven (g ∷ fs) f
IsProven-later g f fs w = (
  All-map (IsProvenEdge fs) (IsProvenEdge (g ∷ fs))
      (λ e h s. HasSucceeded-later g fs e.upstream (h s)) f.edges w.0,
  All-map (IsProvenNode fs) (IsProvenNode (g ∷ fs))
      (λ n h s. HasSucceeded-later g fs n.task_id (h s)) f.nodes w.1,
)

pub mark-IsProven :
    (fs : List Flow) (wanted : Edge → Bool) (es : List Edge)
    → All (IsProvenEdge fs) es
    → ((e : Edge) → wanted e ≡ true → HasSucceeded fs e.upstream)
    → All (IsProvenEdge fs) (mark_satisfied wanted es)
unfolding mark_satisfied
mark-IsProven fs wanted [] a h = tt
mark-IsProven fs wanted (e ∷ es) a h = elim (Bool-cases (wanted e && not e.satisfied)) [
  | inl q ↦ rw q ((λ s. h e (ground arith)), mark-IsProven fs wanted es a.1 h)
  | inr q ↦ rw q (a.0, mark-IsProven fs wanted es a.1 h)
]

record-IsProven :
    (fs : List Flow) (task_id : ℕ) (status : Status) (epoch : ℕ) (ns : List Node)
    → All (IsProvenNode fs) ns
    → (status_eq status successful ≡ true → HasSucceeded fs task_id)
    → All (IsProvenNode fs) (record_outcome task_id status epoch ns)
unfolding record_outcome
record-IsProven fs task_id status epoch [] a h = tt
record-IsProven fs task_id status epoch (n ∷ ns) a h =
    elim (Bool-cases (n.task_id == task_id && outcome_accepts status epoch n)) [
      | inl q ↦
          let same : n.task_id ≡ task_id = ground arith in
          rw q ((λ s. rw same (h s)), record-IsProven fs task_id status epoch ns a.1 h)
      | inr q ↦ rw q (a.0, record-IsProven fs task_id status epoch ns a.1 h)
    ]

pub All-join {ℓ} :
    {A : Type ℓ} (P : A → Type 0) (xs ys : List A) → All P xs → All P ys → All P (xs ++ ys)
All-join P [] ys a b = b
All-join P (x ∷ xs) ys a b = (a.0, All-join P xs ys a.1 b)

pub new_edges-IsProven :
    (f : Flow) (past : List Flow) (workflow id : ℕ) (us : List ℕ)
    → All (IsProvenEdge (f ∷ past)) (edges_into workflow id f.tasks us)
new_edges-IsProven f past workflow id [] = tt
new_edges-IsProven f past workflow id (u ∷ us) =
    ((λ s. (f, here, s)), new_edges-IsProven f past workflow id us)

-- What the recheck takes for proof is one: the row that it read, or a record of that state.
pub proof-HasSucceeded :
    (fs : List Flow) (read : Flow) (id : ℕ)
    → In read fs
    → IsProven fs read
    → succeeded_or_recorded read id ≡ true
    → HasSucceeded fs id
unfolding succeeded_or_recorded succeeded_among first
proof-HasSucceeded fs read id i w h = elim (Option-cases (first (λ r. r.id == id) read.tasks)) [
  | inl e ↦
      let (n, m, q) =
        any-witness (λ n. n.task_id == id && has_outcome successful n.outcome) read.nodes
          (rw (succeeded_or_recorded, e) at h) in
      let same : n.task_id ≡ id = ground arith in
      rw (← same) (All-In (IsProvenNode fs) m w.1 (ground arith))
  | inr (r, e) ↦
      let s : status_eq r.status successful ≡ true = rw (succeeded_or_recorded, e) at h in
      let (m, k) = In-select (λ x. x.id == id) read.tasks (head?-In _ e) in
      (read, i, any-In (λ x. x.id == id && status_eq x.status successful) m (ground arith))
]

pub record-outcome-IsProven :
    (f : Flow) (past : List Flow) (task_id : ℕ) (status : Status) (epoch : ℕ)
    → (status_eq status successful ≡ true → succeeded_among f.tasks task_id ≡ true)
    → IsProven (f ∷ past) f
    → IsProven (f ∷ past) (record_node_outcome task_id status epoch f).0
unfolding record_node_outcome
record-outcome-IsProven f past task_id status epoch h w =
    let fs = f ∷ past in
    let proof : status_eq status successful ≡ true → HasSucceeded fs task_id =
      λ s. (f, here, h s) in
    let nodes = record-IsProven fs task_id status epoch f.nodes w.1 proof in
    elim (Bool-cases (any (λ n. n.task_id == task_id) f.nodes)) [
      | inr q ↦ rw q w
      | inl q ↦ elim (Bool-cases (status_eq status successful)) [
        | inr s ↦ rw (q, s) (w.0, nodes)
        | inl s ↦
            rw (q, s)
              (
                mark-IsProven fs (λ e. e.upstream == task_id) f.edges w.0
                    (λ e k. let same : e.upstream ≡ task_id = ground arith in rw same (proof s)),
                nodes,
              )
      ]
    ]

cancelled-IsProven :
    (fs : List Flow) (pairs : List (ResultId × ℕ)) (t : Table) (ns : List Node)
    → All (IsProvenNode fs) ns
    → All (IsProvenNode fs) (record_cancelled pairs t ns)
unfolding record_cancelled
cancelled-IsProven fs pairs t [] a = tt
cancelled-IsProven fs pairs t (n ∷ ns) a =
    let rest = cancelled-IsProven fs pairs t ns a.1 in
    elim (Option-cases (first (λ r. r.id == n.task_id && status_eq r.status discarded) t)) [
      | inl e ↦ rw e (a.0, rest)
      | inr (r, e) ↦
          elim (Bool-cases (names n.task_id pairs && outcome_accepts discarded r.lease_epoch n)) [
            | inl q ↦ rw (e, q) ((λ s. absurd cc), rest)
            | inr q ↦ rw (e, q) (a.0, rest)
          ]
    ]

pub cancel-IsProven :
    (f : Flow) (past : List Flow) (key : ℕ → ℕ) (now : ℕ) (others : ℕ → Table → Table)
    → (workflow : ℕ) (seen held : Flow) → IsProven (f ∷ past) f
    → IsProven (f ∷ past) (cancel_level key now others workflow seen held f).0
unfolding cancel_level
cancel-IsProven f past key now others workflow seen held w =
    let pairs = doomed_pairs workflow seen held in
    let (t, moved) = cancel_many (λ s. none) key now others pairs f.tasks in
    elim (Bool-cases (moved == 0)) [
      | inl e ↦ rw e w
      | inr e ↦ rw e (w.0, cancelled-IsProven (f ∷ past) pairs t f.nodes w.1)
    ]

pub row_of_success :
    (fs : List Flow) (seen : Flow) (id : ℕ) (r : OxTask)
    → In seen fs
    → row_with seen.tasks id ≡ some r
    → status_eq r.status successful ≡ true
    → HasSucceeded fs id
unfolding succeeded_among first
row_of_success fs seen id r i e s =
    let (m, k) = In-select (λ x. x.id == id) seen.tasks (head?-In _ e) in
    (seen, i, any-In (λ x. x.id == id && status_eq x.status successful) m (ground arith))

repaired-IsProven :
    (fs : List Flow) (workflow : ℕ) (seen : Flow) (ns : List Node)
    → In seen fs
    → All (IsProvenNode fs) ns
    → All (IsProvenNode fs) (map (repaired_node workflow seen) ns)
repaired-IsProven fs workflow seen [] i a = tt
repaired-IsProven fs workflow seen (n ∷ ns) i a =
    let rest = repaired-IsProven fs workflow seen ns i a.1 in
    elim (Option-cases (row_with seen.tasks n.task_id)) [
      | inl e ↦ rw (repaired_node, e) (a.0, rest)
      | inr (r, e) ↦
          elim (Bool-cases
            (is_repaired workflow seen n.task_id && outcome_accepts r.status r.lease_epoch n)) [
              | inl q ↦ rw (repaired_node, e, q) (row_of_success fs seen n.task_id r i e, rest)
              | inr q ↦ rw (repaired_node, e, q) (a.0, rest)
            ]
    ]

pub repair-IsProven :
    (f : Flow) (past : List Flow) (workflow : ℕ) (seen : Flow)
    → In seen (f ∷ past)
    → IsProven (f ∷ past) f
    → IsProven (f ∷ past) (repair_records workflow seen f)
unfolding repair_records
repair-IsProven f past workflow seen i w = (
  mark-IsProven (f ∷ past) _ f.edges w.0 (λ e k.
      elim (Option-cases (row_with seen.tasks e.upstream)) [
        | inl q ↦ absurd (let x = rw q at k in ground arith)
        | inr (r, q) ↦
            let x = rw q at k in row_of_success (f ∷ past) seen e.upstream r i q (ground arith)
      ]),
  repaired-IsProven (f ∷ past) workflow seen f.nodes i w.1,
)

-- What succeeded under the lock, or by its record, has succeeded.
going_well-HasSucceeded :
    (fs : List Flow) (pick : ℕ → Bool) (workflow : ℕ) (seen f : Flow) (read : Table) (id : ℕ)
    → In seen fs
    → In f fs
    → IsProven fs seen
    → is_going_well pick workflow seen read f id ≡ true
    → HasSucceeded fs id
unfolding is_going_well
going_well-HasSucceeded fs pick workflow seen f read id i j w h =
    elim (Bool-cases (has_outcome successful (status_under_lock read f.tasks id))) [
      | inl s ↦ elim (Bool-cases (is_null (row_with read id))) [
        | inl n ↦ absurd (let x = rw n at s in cc)
        | inr n ↦ elim (Option-cases (row_with f.tasks id)) [
          | inl q ↦ absurd (let x = rw (n, q) at s in cc)
          | inr (r, q) ↦ row_of_success fs f id r j q (let x = rw (n, q) at s in x)
        ]
      ]
      | inr s ↦
          let found : chunk_has pick workflow seen (λ n. has_outcome successful n.outcome) id
              ≡ true =
            ground arith in
          let (n, m, q) =
            any-witness
              (λ n. n.task_id == id && in_chunk pick workflow n && has_outcome successful n.outcome)
              seen.nodes found in
          let same : n.task_id ≡ id = ground arith in
          rw (← same) (All-In (IsProvenNode fs) m w.1 (ground arith))
    ]

pub retire-IsProven :
    (f : Flow) (past : List Flow) (pick : ℕ → Bool) (workflow : ℕ) (seen : Flow) (read : Table)
    → In seen (f ∷ past)
    → IsProven (f ∷ past) seen
    → IsProven (f ∷ past) f
    → IsProven (f ∷ past) (retire_chunk pick workflow seen read f)
unfolding retire_chunk
retire-IsProven f past pick workflow seen read i w v =
    let fs = f ∷ past in
    (
      mark-IsProven fs _ _ (All-select (IsProvenEdge fs) _ f.edges v.0) (λ e k.
          going_well-HasSucceeded fs pick workflow seen f read e.upstream i here w (ground arith)),
      All-select (IsProvenNode fs) _ f.nodes v.1,
    )
