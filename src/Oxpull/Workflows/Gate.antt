-- ===== src/Oxpull/Workflows/Gate.antt =====
-- A node waits for the nodes it depends on, through every interleaving of the operations of workflows
-- with each other and with whatever becomes of the task rows.
use django_ox.Prelude.{
  ℕ, ◌≡◌, inl, inr, true, List, ◌∷◌, any, Bool-cases, arith, All, All-In, All-map, In, here, any-In,
}
use django_ox.Oxpull.Workflows.{
  Edge, Flow, satisfy_edges_into, succeeded_among, add_once, is_blocking, is_runnable,
}
use django_ox.Oxpull.Workflows.Steps.{
  HasSucceeded, Step, runs, records, rechecks, cancels, repairs, retires, adds, History, start, on,
}
use django_ox.Oxpull.Workflows.Proven.{
  IsProven, IsProvenEdge, IsProvenNode, IsProven-later, mark-IsProven, record-outcome-IsProven,
  cancel-IsProven, repair-IsProven, retire-IsProven, proof-HasSucceeded, All-join,
  new_edges-IsProven,
}

step-IsProven :
    (f g : Flow) (past : List Flow)
    → All (IsProven (f ∷ past)) (f ∷ past)
    → Step f past g
    → IsProven (f ∷ past) g
unfolding satisfy_edges_into add_once
step-IsProven f g past w (runs t) = w.0
step-IsProven f g past w (records task_id status epoch h) =
    record-outcome-IsProven f past task_id status epoch h w.0
step-IsProven f g past w (rechecks ids read i) = (
  mark-IsProven (f ∷ past) _ f.edges w.0.0 (λ e k.
      proof-HasSucceeded (f ∷ past) read e.upstream i (All-In (IsProven (f ∷ past)) i w)
        (ground arith)),
  w.0.1,
)
step-IsProven f g past w (cancels key now others workflow seen held) =
    cancel-IsProven f past key now others workflow seen held w.0
step-IsProven f g past w (repairs workflow seen i) = repair-IsProven f past workflow seen i w.0
step-IsProven f g past w (retires pick workflow seen read i) =
    retire-IsProven f past pick workflow seen read.tasks i (All-In (IsProven (f ∷ past)) i w) w.0
step-IsProven f g past w (adds workflow name id call now upstreams) = (
  All-join (IsProvenEdge (f ∷ past)) f.edges _ w.0.0
      (new_edges-IsProven f past workflow id upstreams),
  All-join (IsProvenNode (f ∷ past)) f.nodes _ w.0.1 ((λ s. cc), tt),
)

pub History-IsProven :
    {f : Flow} {past : List Flow} → History f past → All (IsProven (f ∷ past)) (f ∷ past)
History-IsProven (start t) = ((tt, tt), tt)
History-IsProven (on {f} {g} {past} r s) =
    let w = History-IsProven r in
    (
      IsProven-later g g (f ∷ past) (step-IsProven f g past w s),
      All-map (IsProven (f ∷ past)) (IsProven (g ∷ f ∷ past))
          (λ h k. IsProven-later g h (f ∷ past) k) (f ∷ past) w,
    )

-- Whatever the operations of workflows and the writes of the task table, in any order: when the claim's
-- condition lets a task through, each task that it depends on has been SUCCESSFUL in this state or an
-- earlier one, also where its row is gone by now.
pub dependencies_first :
    {f : Flow} {past : List Flow} (pk : ℕ) (e : Edge)
    → History f past
    → is_runnable f pk ≡ true
    → In e f.edges
    → e.downstream ≡ pk
    → HasSucceeded (f ∷ past) e.upstream
unfolding is_runnable is_blocking
dependencies_first {f} {past} pk e r h i d =
    elim (Bool-cases (succeeded_among f.tasks e.upstream)) [
      | inl s ↦ (f, here, s)
      | inr s ↦ elim (Bool-cases e.satisfied) [
        | inl m ↦ All-In (IsProvenEdge (f ∷ past)) i (History-IsProven r).0.0 m
        | inr m ↦
            let found : any (is_blocking f.tasks pk) f.edges ≡ true =
              any-In (is_blocking f.tasks pk) i (rw (m, s) (ground (arith, d))) in
            absurd (let x = rw found at h in cc)
      ]
    ]
