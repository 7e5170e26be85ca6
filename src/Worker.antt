-- ===== src/Worker.antt =====
-- src/django_ox/worker.py: what one Worker does to the task table. This file holds the settings
-- and the clocks that the statements below read.
use django_ox.Prelude.{ℕ, ◌+◌, Bool, false, Option, List, [], ◌∷◌, String, ◌||◌}
use django_ox.Store.{OxTask}
use text.Mathlib.Text.{◌==◌ as str_eq}
pub mod Claim
pub mod Outcome
pub mod Failure
pub mod Lease
pub mod Recovery

-- The attributes of Worker that its statements read. A duration is a number of microseconds.
-- `claim_filter_q` and `claim_filter_sql` are the two hooks a subclass may override, as the
-- condition each puts on a row, or `none` for the default that adds no condition.
pub record Worker : Type 0 where
  pub worker_id : String
  pub queues : List String
  pub lock_timeout : ℕ
  pub reap_batch : ℕ
  pub backoff_initial : ℕ
  pub backoff_max : ℕ
  pub claim_filter_q : Option (OxTask → Bool)
  pub claim_filter_sql : Option (OxTask → Bool)

-- What a statement reads as the time: timezone.now() of the process, and _lease_now().
pub record Clock : Type 0 where
  pub process : ℕ
  pub lease : ℕ

-- _lease_expiry: on the clock of _lease_now().
abbrev pub lease_expiry : Clock → ℕ → ℕ
lease_expiry c seconds = c.lease + seconds

abbrev pub contains : List String → String → Bool
contains [] s = false
contains (x ∷ xs) s = str_eq x s || contains xs s
