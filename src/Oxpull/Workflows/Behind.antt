-- ===== src/Oxpull/Workflows/Behind.antt =====
-- Which rows the reconciler discards and releases: those behind a dead upstream, and those whose every
-- upstream has succeeded.
use django_ox.Prelude.{
  ℕ, ◌≡◌, refl, ap, true, false, ◌==◌, ◌&&◌, not, ◌⊎◌, inl, inr, none, Bool-cases, Option-cases,
  List, [], ◌∷◌, map, any-In, any-witness, In, here, there, In-cons, In-select, All-In, arith,
  unsome,
}
use django_ox.Store.{OxTask, Status, statuses_in, waiting}
use django_ox.Actions.{ResultId, discarded_row, pk_of}
use django_ox.Waiting.{cancellable, cancel_many, released_row}
use django_ox.Waiting.Moves.{Selected, cancelled_rows, released_rows}
use django_ox.Oxpull.Workflows.{Edge, Node, Flow}
use django_ox.Oxpull.Workflows.Classes.{dead_statuses}
use django_ox.Oxpull.Workflows.Steps.{HasSucceeded, History}
use django_ox.Oxpull.Workflows.Proven.{IsProven, IsProvenEdge}
use django_ox.Oxpull.Workflows.Gate.{History-IsProven}
use django_ox.Oxpull.Workflows.Cancel.{
  row_with, is_dead_outcome, is_doomed, dooms, doomed_pairs, cancel_level,
}
use django_ox.Oxpull.Workflows.Release.{is_held, free_pairs, release_chunk}

-- The pairs that the two moves pass on: the key and the epoch of each row.
abbrev pub pair_of : OxTask → ResultId × ℕ
pair_of r = (ResultId.uuid r.id, r.lease_epoch)

pub pair-In :
    (rs : List OxTask) (i : ResultId) (epoch : ℕ)
    → In (i, epoch) (map pair_of rs)
    → (r : OxTask) × In r rs × (i ≡ ResultId.uuid r.id) × (epoch ≡ r.lease_epoch)
pair-In [] i epoch m = elim m [ ]
pair-In (r ∷ rs) i epoch m = elim (In-cons m) [
  | inl e ↦ (r, here, ap (λ (p : ResultId × ℕ). p.0) e, ap (λ (p : ResultId × ℕ). p.1) e)
  | inr k ↦ let (x, j, e, q) = pair-In rs i epoch k in (x, there j, e, q)
]

-- A selected row was among the rows that were read.
Selected-In :
    (rs : List OxTask) (pk epoch : ℕ)
    → Selected (λ s. none) (map pair_of rs) pk epoch
    → (r : OxTask) × In r rs × (r.id ≡ pk)
unfolding pk_of
Selected-In rs pk epoch (i, m, e) =
    let (r, j, q, x) = pair-In rs i epoch m in (r, j, unsome (let y = rw q at e in y))

only_waiting : (s : Status) → statuses_in (waiting ∷ []) s ≡ true → s ≡ waiting
only_waiting s h = ground arith

-- The upstream's row is in a dead status in `held`; or the plain read `seen` found no row of it, and its
-- node's record in `held` holds such a status.
abbrev pub IsDeadIn : (seen held : Flow) → ℕ → Type 0
IsDeadIn seen held id =
    ((r : OxTask) × In r held.tasks × (r.id ≡ id) × (statuses_in dead_statuses r.status ≡ true))
    ⊎ ((row_with seen.tasks id ≡ none)
        × ((n : Node) × In n held.nodes × (n.task_id ≡ id) × (is_dead_outcome n.outcome ≡ true)))

doomed-IsDeadIn :
    (workflow : ℕ) (seen held : Flow) (id : ℕ)
    → is_doomed workflow seen held id ≡ true
    → IsDeadIn seen held id
unfolding is_doomed
doomed-IsDeadIn workflow seen held id h = elim (Option-cases (row_with seen.tasks id)) [
  | inl e ↦
      let x = rw e at h in
      let (n, i, q) =
        any-witness (λ n. n.task_id == id && is_dead_outcome n.outcome) held.nodes (ground arith) in
      inr (e, (n, i, ground arith, ground arith))
  | inr (y, e) ↦
      let x = rw e at h in
      let (r, i, q) =
        any-witness (λ r. r.id == id && statuses_in dead_statuses r.status) held.tasks
          (ground arith) in
      inl (r, i, ground arith, ground arith)
]

-- With nothing else between its chunks: a row after a level of the cancellation was there before, or
-- it was READY or WAITING and is DISCARDED now. Then an edge of the workflow that is not marked leads
-- to it from an upstream that has settled without succeeding: by its row, in the state the locks hold; or,
-- where the plain read found no row of it, by its node's record in that state.
pub cancels_behind_dead :
    (key : ℕ → ℕ) (now workflow : ℕ) (seen held f : Flow) (r : OxTask)
    → In r (cancel_level key now (λ k t. t) workflow seen held f).0.tasks
    → In r f.tasks
      ⊎ ((x : OxTask) × In x f.tasks
          × (r ≡ discarded_row now x)
          × (statuses_in cancellable x.status ≡ true)
          × ((e : Edge) × In e held.edges
              × (e.downstream ≡ x.id)
              × (e.workflow ≡ workflow)
              × (e.satisfied ≡ false)
              × IsDeadIn seen held e.upstream))
unfolding cancel_level doomed_pairs dooms
cancels_behind_dead key now workflow seen held f r m =
    let pairs = doomed_pairs workflow seen held in
    let (t, moved) = cancel_many (λ s. none) key now (λ k t. t) pairs f.tasks in
    let inside : In r t = elim (Bool-cases (moved == 0)) [
      | inl e ↦ rw e at m
      | inr e ↦ rw e at m
    ] in
    elim (cancelled_rows (λ s. none) key pairs now f.tasks inside) [
      | inl i ↦ inl i
      | inr (x, i, e, s, p) ↦
          let (y, j, q) = Selected-In _ x.id x.lease_epoch p in
          let (k, h) = In-select _ held.tasks j in
          let (edge, l, d) =
            any-witness (dooms workflow seen held y.id) held.edges (ground arith) in
          inr (
            x,
            i,
            e,
            s,
            (
              edge,
              l,
              ground arith,
              ground arith,
              ground arith,
              doomed-IsDeadIn workflow seen held edge.upstream (ground arith),
            ),
          )
    ]

-- Whatever has happened to the workflows, with nothing else between its chunks: a row after a chunk of
-- release_downstream was there before, or it was WAITING and is READY now. Then each task that it
-- depends on, by an edge of the earlier or present state that the chunk went by, was SUCCESSFUL in
-- this state or an earlier one.
pub releases_after_dependencies :
    (key : ℕ → ℕ) (now : ℕ) (chunk : List ℕ) (read held f : Flow) (past : List Flow) (r : OxTask)
    → (e : Edge) → History f past
    → In read (f ∷ past)
    → In r (release_chunk key now (λ k t. t) chunk read held f).0.tasks
    → In e read.edges
    → e.downstream ≡ r.id
    → In r f.tasks
      ⊎ (((x : OxTask) × In x f.tasks × (r ≡ released_row now x) × (x.status ≡ waiting))
          × HasSucceeded (f ∷ past) e.upstream)
unfolding release_chunk free_pairs is_held released_row
releases_after_dependencies key now chunk read held f past r e h i m j d =
    elim (released_rows (λ s. none) key (free_pairs chunk read.edges held.tasks) now f.tasks m) [
      | inl n ↦ inl n
      | inr (x, n, q, s, p) ↦
          let (y, l, same) = Selected-In _ x.id x.lease_epoch p in
          let (k, free) = In-select _ held.tasks l in
          let named : r.id ≡ x.id = rw q refl in
          let mark : e.satisfied ≡ true = elim (Bool-cases e.satisfied) [
            | inl o ↦ o
            | inr o ↦
                let blocked : is_held read.edges y.id ≡ true =
                  any-In (λ e. e.downstream == y.id && not e.satisfied) j (rw o (ground arith)) in
                absurd (ground arith)
          ] in
          let proven = All-In (IsProven (f ∷ past)) i (History-IsProven h) in
          inr ((x, n, q, only_waiting x.status s), All-In (IsProvenEdge (f ∷ past)) j proven.0 mark)
    ]
