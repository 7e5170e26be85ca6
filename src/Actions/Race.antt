-- ===== src/Actions/Race.antt =====
-- Two sessions that read one row and then both write it: retry, discard and the optimistic claim.
use django_ox.Prelude.{
  ℕ, ◌≡◌, sym, ap, ◌∙◌, Bool, true, false, ◌&&◌, ◌==◌, In, Bool-cases, inl, inr, arith,
}
use django_ox.Store.{OxTask, Table, update, matched}
use django_ox.Store.Update.{UniqueKeys, In-update, matched-none, matched-witness, unique_row}
use django_ox.Worker.{Worker, Clock}
use django_ox.Worker.Claim.{claim_fields, unmoved}
use django_ox.Actions.{
  can_retry, can_discard, at_epoch, retried_row, discarded_row, retry_write, discard_write,
}

false-ne-true : false ≡ true → ⊥
false-ne-true h = cc

-- After an UPDATE, a second one matches nothing if it matches neither a row that the first changed,
-- nor one that the first left alone.
shut_out :
    (v w : OxTask → Bool) (set_ : OxTask → OxTask) (t : Table)
    → ((r : OxTask) → In r t → v r ≡ true → w (set_ r) ≡ false)
    → ((r : OxTask) → In r t → v r ≡ false → w r ≡ false)
    → matched w (update v set_ t) ≡ 0
shut_out v w set_ t hit miss = matched-none w _ λ r' m.
    let (r, n, e) = In-update v set_ t m in
    elim (Bool-cases (v r)) [ inl q ↦ rw (e, q) (hit r n q) | inr q ↦ rw (e, q) (miss r n q) ]

retried_out :
    (pk : ℕ) (s r : OxTask)
    → (can_retry pk (retried_row s.lease_epoch s.attempts r)
        && at_epoch s.lease_epoch (retried_row s.lease_epoch s.attempts r))
      ≡ false
unfolding can_retry retried_row
retried_out pk s r = ground arith

abbrev retry_where : ℕ → OxTask → OxTask → Bool
retry_where pk s r = can_retry pk r && at_epoch s.lease_epoch r

abbrev discard_where : ℕ → OxTask → OxTask → Bool
discard_where pk s r = can_discard pk r && at_epoch s.lease_epoch r

retry_once : (pk : ℕ) (s : OxTask) (t : Table) → (retry_write pk s (retry_write pk s t).0).1 ≡ false
unfolding retry_write
retry_once pk s t = rw (
    shut_out (retry_where pk s) (retry_where pk s) (retried_row s.lease_epoch s.attempts) t
      (λ r m e. retried_out pk s r) (λ r m e. e))

-- The row that a first write matched is the only one with its key, so the second write, for the
-- same key, has no other row to match.
other_rows :
    (pk : ℕ) (v w : OxTask → Bool) (t : Table)
    → UniqueKeys t
    → ((r : OxTask) → v r ≡ true → r.id ≡ pk)
    → ((r : OxTask) → w r ≡ true → r.id ≡ pk)
    → (matched v t == 1) ≡ true
    → (r : OxTask) → In r t
    → v r ≡ false
    → w r ≡ false
other_rows pk v w t u kv kw one r m e =
    let (x, n, q) = matched-witness v t (λ z. ground arith) in
    elim (Bool-cases (w r)) [
      | inl y ↦
          let same : r ≡ x = unique_row u n m (ground (arith, kv x q, kw r y)) in
          absurd (false-ne-true (sym e ∙ ap v same ∙ q))
      | inr y ↦ y
    ]

retry_key : (pk : ℕ) (s r : OxTask) → retry_where pk s r ≡ true → r.id ≡ pk
unfolding can_retry
retry_key pk s r h = ground arith

discard_key : (pk : ℕ) (s r : OxTask) → discard_where pk s r ≡ true → r.id ≡ pk
unfolding can_discard
discard_key pk s r h = ground arith

retried_not_discarded :
    (pk : ℕ) (s r : OxTask) → discard_where pk s (retried_row s.lease_epoch s.attempts r) ≡ false
unfolding can_discard retried_row
retried_not_discarded pk s r = ground arith

discarded_not_retried : (pk now : ℕ) (s r : OxTask) → retry_where pk s (discarded_row now r) ≡ false
unfolding can_retry discarded_row
discarded_not_retried pk now s r = ground arith

-- Over unique keys, of operators' actions that go by one reading of a row: the second of two retries
-- does nothing, and a retry and a discard exclude each other, in either order.
pub retry_or_discard :
    (pk now : ℕ) (s : OxTask) (t : Table)
    → UniqueKeys t
    → ((retry_write pk s (retry_write pk s t).0).1 ≡ false)
      × ((retry_write pk s t).1 ≡ true → (discard_write now pk s (retry_write pk s t).0).1 ≡ false)
      × ((discard_write now pk s t).1 ≡ true
          → (retry_write pk s (discard_write now pk s t).0).1 ≡ false)
unfolding retry_write discard_write
retry_or_discard pk now s t u = (
  retry_once pk s t,
  λ h. rw (
      shut_out (retry_where pk s) (discard_where pk s) (retried_row s.lease_epoch s.attempts) t
        (λ r m e. retried_not_discarded pk s r)
        (other_rows pk (retry_where pk s) (discard_where pk s) t u (retry_key pk s)
          (discard_key pk s) h)),
  λ h. rw (
      shut_out (discard_where pk s) (retry_where pk s) (discarded_row now) t
        (λ r m e. discarded_not_retried pk now s r)
        (other_rows pk (discard_where pk s) (retry_where pk s) t u (discard_key pk s)
          (retry_key pk s) h)),
)

claimed_not_discarded :
    (w : Worker) (c : Clock) (s r : OxTask) → discard_where s.id s (claim_fields w c s r) ≡ false
unfolding can_discard claim_fields
claimed_not_discarded w c s r = ground arith

discarded_not_claimed : (now : ℕ) (s r : OxTask) → unmoved s (discarded_row now r) ≡ false
unfolding discarded_row
discarded_not_claimed now s r = ground arith

-- Over unique keys, a worker's optimistic claim and an operator's discard, both of one row as it was
-- read once, exclude each other, in either order.
pub claim_or_discard :
    (w : Worker) (c : Clock) (now : ℕ) (s : OxTask) (t : Table)
    → UniqueKeys t
    → ((matched (unmoved s) t == 1) ≡ true
        → (discard_write now s.id s (update (unmoved s) (claim_fields w c s) t)).1 ≡ false)
      × ((discard_write now s.id s t).1 ≡ true
          → matched (unmoved s) (discard_write now s.id s t).0 ≡ 0)
unfolding discard_write
claim_or_discard w c now s t u = (
  λ h. rw (
      shut_out (unmoved s) (discard_where s.id s) (claim_fields w c s) t
        (λ r m e. claimed_not_discarded w c s r)
        (other_rows s.id (unmoved s) (discard_where s.id s) t u (λ r e. ground arith)
          (discard_key s.id s) h)),
  λ h.
      shut_out (discard_where s.id s) (unmoved s) (discarded_row now) t
        (λ r m e. discarded_not_claimed now s r)
        (other_rows s.id (discard_where s.id s) (unmoved s) t u (discard_key s.id s)
          (λ r e. ground arith) h),
)
