-- ===== src/Worker/Claim/Alone.antt =====
-- The optimistic claim against the SKIP LOCKED claim, for a worker that nobody interferes with.
use django_ox.Prelude.{
  ◌+◌, ◌≡◌, refl, ap, inl, inr, true, false, not, some, List, [], ◌∷◌, ◌==◌, In, In-select,
  head?-In, Bool-cases, arith, select, head?, take, In-sort,
}
use django_ox.Store.{OxTask, Table, update, matched}
use django_ox.Store.Update.{
  UniqueKeys, first-update, by_key, update-cong, unique_row, first_unique, UniqueKeys-update,
  update-In, matched-zero,
}
use django_ox.Worker.{Worker, Clock}
use django_ox.Worker.Claim.{
  Claim, claim_fields, is_candidate, ready_queryset, take_locked, claim_skip_locked, unmoved,
  try_candidate, try_candidates, claim_optimistic, reload_claimed, note_contended, claim_batch_size,
  continue_with,
}
use django_ox.Worker.Claim.Order.{sorts_before}

select-all : (t : Table) → select (λ (r : OxTask). not false) t ≡ t
select-all [] = refl
select-all (r ∷ t) = ap (◌∷◌ r) (select-all t)

-- The optimistic UPDATE of a row that has not moved is the UPDATE of that row by key.
unmoved-by_key :
    (w : Worker) (c : Clock) (r : OxTask) (t : Table)
    → UniqueKeys t
    → In r t
    → unmoved r r ≡ true
    → update (unmoved r) (claim_fields w c r) t ≡ update (by_key r.id) (claim_fields w c r) t
unmoved-by_key w c r t u m e = update-cong (unmoved r) (by_key r.id) _ _ t λ x n.
    elim (Bool-cases (x.id == r.id)) [
      | inl k ↦ rw (unique_row u m n k) (ground arith)
      | inr k ↦ rw k
    ]

claim_fields-id : (w : Worker) (c : Clock) (s r : OxTask) → (claim_fields w c s r).id ≡ r.id
unfolding claim_fields
claim_fields-id w c s r = refl

reload_alone :
    (w : Worker) (c : Clock) (r : OxTask) (t : Table)
    → UniqueKeys t
    → In r t
    → reload_claimed r.id (r.lease_epoch + 1) (update (by_key r.id) (claim_fields w c r) t)
      ≡ some (claim_fields w c r r)
unfolding reload_claimed claim_fields
reload_alone w c r t u m =
    first_unique _ (UniqueKeys-update (by_key r.id) _ t (claim_fields-id w c r) u)
      (update-In (by_key r.id) (claim_fields w c r) m (ground arith)) (ground arith)
      (λ x e. ground arith)

try_candidate_alone :
    (w : Worker) (c : Clock) (r : OxTask) (t : Table)
    → UniqueKeys t
    → In r t
    → unmoved r r ≡ true
    → try_candidate w c (λ k x. x) 0 r t ≡ take_locked w c (some r) t
unfolding try_candidate take_locked
try_candidate_alone w c r t u m e = elim (Bool-cases (matched (unmoved r) t == 0)) [
  | inl z ↦ absurd (ground (arith, matched-zero (unmoved r) m))
  | inr z ↦ rw z (
      rw (
        unmoved-by_key w c r t u m e,
        reload_alone w c r t u m,
        first-update (claim_fields w c r) t (claim_fields-id w c r r) u m,
      ))
]

first_candidate :
    (w : Worker) (c : Clock) (t : Table) (r : OxTask) (rest : List OxTask)
    → ready_queryset w.claim_filter_q w c.process t ≡ r ∷ rest
    → In r t × (unmoved r r ≡ true)
unfolding ready_queryset is_candidate
first_candidate w c t r rest e =
    let kept = In-sort sorts_before _ (head?-In _ (ap head? e)) in
    let (m, q) = In-select _ t kept in (m, ground arith)

settled_at_once :
    (result : Claim) (row : OxTask) (read : OxTask) (rest : List OxTask) (next : Table → Claim)
    → result.held ≡ some row
    → note_contended (read ∷ rest) (continue_with result next) ≡ result
settled_at_once result row read rest next h = ground arith

walk_alone :
    (w : Worker) (c : Clock) (t : Table) (found : List OxTask)
    → UniqueKeys t
    → ready_queryset w.claim_filter_q w c.process t ≡ found
    → note_contended
        (take claim_batch_size found)
        (try_candidates w c (λ k x. x) 0 (take claim_batch_size found) t)
      ≡ take_locked w c (head? found) t
unfolding try_candidates take_locked
walk_alone w c t [] u e = refl
walk_alone w c t (r ∷ rest) u e =
    let chosen = first_candidate w c t r rest e in
    rw (try_candidate_alone w c r t u chosen.0 chosen.1) (
      settled_at_once _ (claim_fields w c r r) r (take 4 rest)
        (try_candidates w c (λ k x. x) 2 (take 4 rest))
        (first-update (claim_fields w c r) t (claim_fields-id w c r r) u chosen.0))

-- Over a table of unique keys that no other session touches, the optimistic claim leaves the table
-- that the SKIP LOCKED claim leaves, and hands out the same row.
pub claim_paths_agree :
    (w : Worker) (c : Clock) (t : Table)
    → UniqueKeys t
    → claim_optimistic w c (λ k x. x) t ≡ claim_skip_locked w c (λ r. false) t
unfolding claim_optimistic claim_skip_locked
claim_paths_agree w c t u = rw (select-all t) (walk_alone w c t _ u refl)
