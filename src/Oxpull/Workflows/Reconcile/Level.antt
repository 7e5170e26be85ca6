-- ===== src/Oxpull/Workflows/Reconcile/Level.antt =====
-- One level of the cancellation, with nothing else between: an edge that dooms makes it move a row.
use django_ox.Prelude.{
  ℕ, ◌≡◌, ◌≢◌, refl, ==_refl, Bool, true, false, ◌==◌, ◌&&◌, inl, inr, none, some, Option-cases,
  Bool-cases, List, [], ◌∷◌, map, select, any, any-In, In, here, there, In-select, select-In,
  head?-In, unsome, arith,
}
use django_ox.Store.{OxTask, Table, statuses_in, first}
use django_ox.Store.Update.{UniqueKeys, unique_row}
use django_ox.Actions.{ResultId, discarded_row, pk_of}
use django_ox.Waiting.{cancellable, cancel_many}
use django_ox.Waiting.Covers.{moves_selected}
use django_ox.Oxpull.Workflows.{Edge, Node, Flow}
use django_ox.Oxpull.Workflows.Classes.{dead_statuses, has_row_in}
use django_ox.Oxpull.Workflows.Behind.{pair_of, pair-In}
use django_ox.Oxpull.Workflows.Cancel.{
  row_with, is_dead_outcome, outcome_of, is_dead_upstream, is_cancellable, is_doomed, dooms,
  doomed_pairs,
}

row_with-In :
    (t : Table) (id : ℕ) (r : OxTask) → row_with t id ≡ some r → In r t × ((r.id == id) ≡ true)
unfolding first
row_with-In t id r e = In-select (λ x. x.id == id) t (head?-In _ e)

outcome_of-any :
    (ns : List Node) (id : ℕ)
    → is_dead_outcome (outcome_of ns id) ≡ true
    → any (λ n. n.task_id == id && is_dead_outcome n.outcome) ns ≡ true
outcome_of-any [] id h = absurd (ground arith)
outcome_of-any (n ∷ ns) id h = elim (Bool-cases (n.task_id == id)) [
  | inl e ↦ let x = rw e at h in ground arith
  | inr e ↦ let x = outcome_of-any ns id (rw e at h) in ground arith
]

cancellable_cases :
    (workflow : ℕ) (f : Flow) (e : Edge)
    → is_cancellable workflow f e ≡ true
    → ((e.workflow == workflow) ≡ true)
      × (e.satisfied ≡ false)
      × (is_dead_upstream f e.upstream ≡ true)
      × (has_row_in cancellable (row_with f.tasks e.downstream) ≡ true)
unfolding is_cancellable
cancellable_cases workflow f e h = (ground arith, ground arith, ground arith, ground arith)

-- An edge that the first read takes for dooming still dooms where nothing has changed.
cancellable_doomed :
    (workflow : ℕ) (f : Flow) (e : Edge)
    → In e f.edges
    → is_cancellable workflow f e ≡ true
    → is_doomed workflow f f e.upstream ≡ true
unfolding is_doomed is_dead_upstream
cancellable_doomed workflow f e i h =
    let (o, s, dead, l) = cancellable_cases workflow f e h in
    let found : any (λ d. d.upstream == e.upstream && is_cancellable workflow f d) f.edges ≡ true =
      any-In (λ d. d.upstream == e.upstream && is_cancellable workflow f d) i
        (rw (==_refl e.upstream) h) in
    elim (Option-cases (row_with f.tasks e.upstream)) [
      | inl q ↦
          let recorded = outcome_of-any f.nodes e.upstream (rw (is_dead_upstream, q) at dead) in
          rw q (rw (found, recorded) refl)
      | inr (r, q) ↦
          let gone : statuses_in dead_statuses r.status ≡ true = rw (is_dead_upstream, q) at dead in
          let (m, k) = row_with-In f.tasks e.upstream r q in
          let row =
            any-In (λ r. r.id == e.upstream && statuses_in dead_statuses r.status) m
              (rw (k, gone) refl) in
          rw q (rw (found, row) refl)
    ]

edge_dooms :
    (workflow : ℕ) (f : Flow) (e : Edge) (id : ℕ)
    → (id == e.downstream) ≡ true
    → In e f.edges
    → is_cancellable workflow f e ≡ true
    → any (dooms workflow f f id) f.edges ≡ true
unfolding dooms
edge_dooms workflow f e id k i h =
    let (o, s, dead, l) = cancellable_cases workflow f e h in
    let into : (e.downstream == id) ≡ true = ground arith in
    any-In (dooms workflow f f id) i (rw (into, o, s, cancellable_doomed workflow f e i h) refl)

map-pair-In : {r : OxTask} {rs : List OxTask} → In r rs → In (pair_of r) (map pair_of rs)
map-pair-In here = here
map-pair-In (there m) = there (map-pair-In m)

-- A table with unique keys gives each key one epoch.
one_epoch :
    (p : OxTask → Bool) (t : Table) (r : OxTask) (i : ResultId) (epoch : ℕ)
    → UniqueKeys t
    → In r t
    → In (i, epoch) (map pair_of (select p t))
    → pk_of (λ s. none) i ≡ some r.id
    → epoch ≡ r.lease_epoch
unfolding pk_of
one_epoch p t r i epoch u m n e =
    let (x, k, q, l) = pair-In (select p t) i epoch n in
    let named : x.id ≡ r.id = unsome (let y = rw q at e in y) in
    let same : x ≡ r = unique_row u m (In-select p t k).0 (rw named (==_refl r.id)) in cc

-- A cancellable edge makes a level move a row.
pub level_moves :
    (key : ℕ → ℕ) (now workflow : ℕ) (f : Flow) (e : Edge)
    → UniqueKeys f.tasks
    → In e f.edges
    → is_cancellable workflow f e ≡ true
    → (cancel_many (λ s. none) key now (λ k t. t) (doomed_pairs workflow f f) f.tasks).1 ≢ 0
unfolding cancel_many doomed_pairs dooms pk_of
level_moves key now workflow f e u i h =
    let (o, s, dead, l) = cancellable_cases workflow f e h in
    elim (Option-cases (row_with f.tasks e.downstream)) [
      | inl q ↦ absurd (let x = rw q at l in cc)
      | inr (r, q) ↦
          let (m, k) = row_with-In f.tasks e.downstream r q in
          let status : statuses_in cancellable r.status ≡ true = rw q at l in
          let behind = edge_dooms workflow f e r.id k i h in
          let chosen : OxTask → Bool =
            λ x. any (dooms workflow f f x.id) f.edges && statuses_in cancellable x.status in
          let rows = select chosen f.tasks in
          let listed = map-pair-In (select-In chosen m (rw (behind, status) refl)) in
          moves_selected (λ s. none) key (map pair_of rows) cancellable (discarded_row now) f.tasks
            r (ResultId.uuid r.id) m status listed refl
            (λ j n a b. one_epoch chosen f.tasks r j n u m a b)
    ]
