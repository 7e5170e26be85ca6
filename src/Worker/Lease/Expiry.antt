-- ===== src/Worker/Lease/Expiry.antt =====
-- The stored expiry of a lease against a reaper's own timeout.
use django_ox.Prelude.{ℕ, ◌+◌, ◌≡◌, true, false, none, some, leb, ltb, if◌then◌else◌, arith}
use django_ox.Store.{OxTask, running}
use django_ox.Worker.{Worker, Clock}
use django_ox.Worker.Claim.{claim_fields}
use django_ox.Worker.Lease.{renewed, abandoned_lease_q, is_stuck}

-- Every reaper, whatever cutoff it derives from its own timeout, takes a row that a claim has just
-- granted, or one whose lease a renewal has just extended, exactly when the expiry of that lease has
-- passed.
pub lease_expiry_decides :
    (w : Worker) (c : Clock) (s r : OxTask) (now cutoff : ℕ)
    → r.status ≡ running
    → (is_stuck now cutoff (claim_fields w c s r) ≡ ltb (c.lease + w.lock_timeout) now)
      × (is_stuck now cutoff (renewed w c r) ≡ ltb (c.lease + w.lock_timeout) now)
unfolding abandoned_lease_q claim_fields renewed
lease_expiry_decides w c s r now cutoff e = (ground arith, ground arith)

-- A row without a stored expiry is judged by its lock and the reaper's cutoff alone.
old_lease :
    (r : OxTask) (now cutoff at : ℕ)
    → r.lease_expires_at ≡ none
    → r.locked_at ≡ some at
    → abandoned_lease_q now cutoff r ≡ (if leb cutoff at then false else true)
unfolding abandoned_lease_q
old_lease r now cutoff at e l = ground arith
