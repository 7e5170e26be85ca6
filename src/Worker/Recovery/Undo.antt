-- ===== src/Worker/Recovery/Undo.antt =====
-- The release of a claim against the claim it takes back.
use django_ox.Prelude.{◌+◌, ◌-◌, ◌≡◌, refl, ap, none, some, List, [], ◌∷◌, ◌++◌, drop_last, arith}
use django_ox.Store.{OxTask, ready}
use django_ox.Worker.{Worker, Clock}
use django_ox.Worker.Claim.{claim_fields, or_now}
use django_ox.Worker.Recovery.{released, cleared_if_unstarted}

drop_last-append {ℓ} : {A : Type ℓ} (xs : List A) (x : A) → drop_last (xs ++ x ∷ []) ≡ xs
drop_last-append [] x = refl
drop_last-append (y ∷ []) x = refl
drop_last-append (y ∷ z ∷ xs) x = ap (◌∷◌ y) (drop_last-append (z ∷ xs) x)

-- Releasing a claim puts back the row that the claim read, its attempts and its history of workers
-- included, without a lease: only the epoch is two higher, the time of the last attempt is the
-- claim's, and the start is cleared if no earlier attempt was made.
pub released-claim_fields :
    (w : Worker) (c : Clock) (s : OxTask)
    → released (claim_fields w c s s) (claim_fields w c s s) ≡ record s {
      status = ready;
      locked_by = none;
      locked_at = none;
      lease_expires_at = none;
      lease_epoch = s.lease_epoch + 2;
      last_attempted_at = some c.lease;
      started_at = cleared_if_unstarted s.attempts (or_now s.started_at c.lease);
    }
unfolding released claim_fields
released-claim_fields w c s =
    let history = drop_last-append s.worker_ids w.worker_id in
    let attempts : s.attempts + 1 - 1 ≡ s.attempts = omega arith in
    let epoch : s.lease_epoch + 1 + 1 ≡ s.lease_epoch + 2 = omega arith in
    rw (history, attempts, epoch) refl
