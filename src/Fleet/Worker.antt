-- ===== src/Fleet/Worker.antt =====
-- The worker's claim, and its other statements, as steps of rows.
use django_ox.Prelude.{
  ℕ, ◌≤◌, ◌≡◌, refl, ◌⊎◌, inl, inr, Bool, true, Option, List, ◌==◌, here, Each, Each-refl,
  Bool-cases, Option-cases, arith, ==_refl,
}
use django_ox.Store.{OxTask, Table}
use django_ox.Store.Update.{UniqueKeys, update-Each, by_key, unique_row}
use django_ox.Worker.{Worker, Clock}
use django_ox.Worker.Claim.{Claim, claim_fields, unmoved, is_candidate, Database, claim_one}
use django_ox.Worker.Claim.Grants.{Grants, claim_one-Grants}
use django_ox.Worker.Lease.{
  is_renewed, renewed, renew_leases, renewable, is_requeued, requeued, is_stuck, has_attempts_left,
  is_abandoned, abandoned,
}
use django_ox.Worker.Recovery.{is_released, released, has_whole_history, release_claim}
use django_ox.Life.{claimed, renewal, requeue, abandonment, unclaimed}
use django_ox.Fleet.{RowStep, IsRead}
use django_ox.Fleet.Statements.{Statement, renews, requeues, abandons, releases, execute}
use django_ox.Fleet.Pinned.{IsPinned, execute-IsPinned}

candidate-unmoved :
    (hook : Option (OxTask → Bool)) (w : Worker) (now : ℕ) (r : OxTask)
    → is_candidate hook w now r ≡ true
    → unmoved r r ≡ true
unfolding is_candidate
candidate-unmoved hook w now r h = ground arith

claimed-steps :
    (hook : Option (OxTask → Bool)) (w : Worker) (c : Clock) (is_locked : OxTask → Bool) (t : Table)
    (past : ℕ → List OxTask) (result : Claim)
    → UniqueKeys t
    → Grants hook w c is_locked t result
    → Each (RowStep past) t result.table
claimed-steps hook w c is_locked t past result u g = elim (Option-cases result.held) [
  | inl e ↦ rw (g.refused e).0 (Each-refl (λ r. inl refl) t)
  | inr (r', e) ↦
      let (r, n, _, q) = g.granted r' e in
      rw q (
        update-Each (by_key r.id) (claim_fields w c r) t λ x m. elim (Bool-cases (x.id == r.id)) [
          | inl k ↦
              rw (unique_row u n.stored m k, ==_refl r.id)
                (inr (claimed w c r here (candidate-unmoved hook w c.process r n.eligible)))
          | inr k ↦ rw k (inl refl)
        ])
]

-- A claim on a database that skips locked rows moves each row by one step of its life or not at
-- all, over a table of unique keys.
pub claim_one-steps :
    (db : Database) (w : Worker) (c : Clock) (is_locked : OxTask → Bool)
    (others : ℕ → Table → Table) (t : Table) (past : ℕ → List OxTask)
    → db.has_skip_locked ≡ true
    → UniqueKeys t
    → Each (RowStep past) t (claim_one db w c is_locked others t).table
claim_one-steps db w c is_locked others t past k u =
    claimed-steps _ w c is_locked t past _ u (claim_one-Grants db w c is_locked others t k u)

-- What the code checked of the row it read before it made the statement.
abbrev pub IsDue : (ℕ → List OxTask) → Table → Worker → Statement → Type 0
IsDue past t w (abandons c now cutoff note s) = IsRead past t s × (s.max_attempts ≤ s.attempts)
IsDue past t w (releases s) = IsRead past t s × (has_whole_history w s ≡ true)
IsDue past t w _ = Unit {0}

abandoned_id : (now cutoff : ℕ) (s r : OxTask) → is_abandoned now cutoff s r ≡ true → r.id ≡ s.id
unfolding is_abandoned
abandoned_id now cutoff s r h = ground arith

released_id : (w : Worker) (s r : OxTask) → is_released w s r ≡ true → r.id ≡ s.id
unfolding is_released
released_id w s r h = ground arith

requeued_parts :
    (now cutoff : ℕ) (manifest : List OxTask) (r : OxTask)
    → is_requeued now cutoff manifest r ≡ true
    → (is_stuck now cutoff r ≡ true) × (has_attempts_left r ≡ true)
unfolding is_requeued
requeued_parts now cutoff manifest r h = ground arith

execute-RowStep :
    (past : ℕ → List OxTask) (w : Worker) (st : Statement) (t : Table)
    → IsDue past t w st
    → Each (RowStep past) t (execute w st t)
unfolding renew_leases release_claim
execute-RowStep past w (renews c fl cl) t d =
    update-Each (is_renewed w (renewable fl cl)) (renewed w c) t λ r m.
      elim (Bool-cases (is_renewed w (renewable fl cl) r)) [
        | inl e ↦ rw e (inr (renewal w c (renewable fl cl) e))
        | inr e ↦ rw e (inl refl)
      ]
execute-RowStep past w (requeues now cutoff manifest) t d =
    update-Each (is_requeued now cutoff manifest) requeued t λ r m.
      elim (Bool-cases (is_requeued now cutoff manifest r)) [
        | inl e ↦
            let (stuck, left) = requeued_parts now cutoff manifest r e in
            rw e (inr (requeue now cutoff stuck left))
        | inr e ↦ rw e (inl refl)
      ]
execute-RowStep past w (abandons c now cutoff note s) t d =
    update-Each (is_abandoned now cutoff s) (abandoned c note s) t λ r m.
      elim (Bool-cases (is_abandoned now cutoff s r)) [
        | inl e ↦
            rw e (
              inr (abandonment c now cutoff note s (d.0 r m (abandoned_id now cutoff s r e)) d.1 e))
        | inr e ↦ rw e (inl refl)
      ]
execute-RowStep past w (releases s) t d = update-Each (is_released w s) (released s) t λ r m.
    elim (Bool-cases (is_released w s r)) [
      | inl e ↦ rw e (inr (unclaimed w s (d.0 r m (released_id w s r e)) d.1 e))
      | inr e ↦ rw e (inl refl)
    ]

-- A renewal, a requeue, an abandonment or a release, made for a row that some session read and that
-- the code checked, leaves each row as it was or one step of its life further. And a row that it changes
-- was RUNNING: for a renewal and a release it was held by this worker, for an abandonment and a release it
-- was at the epoch read, and for a requeue it had attempts left. A renewal leaves the holder, the epoch and
-- the attempts; a requeue and a release make the row READY under nobody at the next epoch, and the release
-- leaves one attempt fewer than was read; an abandonment makes it LOST under nobody.
pub execute-steps :
    (past : ℕ → List OxTask) (w : Worker) (st : Statement) (t : Table)
    → IsDue past t w st
    → Each (RowStep past) t (execute w st t)
      × Each (λ r r'. (r' ≡ r) ⊎ IsPinned w st r r') t (execute w st t)
execute-steps past w st t d = (execute-RowStep past w st t d, execute-IsPinned w st t)
