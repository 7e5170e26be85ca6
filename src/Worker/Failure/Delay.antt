-- ===== src/Worker/Failure/Delay.antt =====
-- When a failed attempt is tried again, and after how long.
use django_ox.Prelude.{
  ℕ, ◌-◌, ◌*◌, ◌^◌, ◌≤◌, ◌<◌, ◌≡◌, ◌≢◌, ◌⊎◌, ◌↔◌, Bool, true, false, Option, none, some, min, arith,
  refl, Option-cases, inl, inr,
}
use native.Mathlib.Nat.{pow-le-pow_right}
use django_ox.Store.{OxTask}
use django_ox.Worker.{Worker}
use django_ox.Worker.Failure.{
  AttemptPolicy, Decision, decided, propagates, backoff_decision, worker_backoff, ask_backoff,
  decide, max_seconds, second, Answer, declines, awaitable, unusable, whole_seconds, timedelta,
  raising, pos, negsuc,
}

-- The worker's own backoff never exceeds BACKOFF_MAX.
pub worker_backoff-le : (w : Worker) (attempts : ℕ) → worker_backoff w attempts ≤ w.backoff_max
unfolding worker_backoff
worker_backoff-le w attempts = omega arith

-- The worker's own backoff does not get shorter as the attempts grow.
worker_backoff_mono : (w : Worker) (a b : ℕ) → a ≤ b → worker_backoff w a ≤ worker_backoff w b
unfolding worker_backoff
worker_backoff_mono w a b h =
    let x : ℕ = min (a - 1) 64 in
    let y : ℕ = min (b - 1) 64 in
    let p : 2 ^ x ≤ 2 ^ y = pow-le-pow_right (omega arith) (omega arith) in
    let q : w.backoff_initial * 2 ^ x ≤ w.backoff_initial * 2 ^ y = grind arith in omega arith

-- A retry is decided only with attempts left, is not declined, and waits at most BACKOFF_MAX, or at
-- most a thousand years where the task's own backoff answered.
pub decide-bounds :
    (w : Worker) (policy : Option AttemptPolicy) (db_task : OxTask) (delay : ℕ) (declined : Bool)
    → decide w policy db_task ≡ decided (some delay) declined
    → (db_task.attempts < db_task.max_attempts)
      × ((delay ≤ w.backoff_max) ⊎ (delay ≤ max_seconds * second))
      × (declined ≡ false)
unfolding decide backoff_decision
decide-bounds w none db_task delay declined h = ground (arith, worker_backoff-le w db_task.attempts)
decide-bounds w (some p) db_task delay declined h =
    ground (arith, worker_backoff-le w db_task.attempts)

abbrev delay_in : Worker → ℕ → Decision → ℕ
delay_in w attempts (decided (some d) declined) = d
delay_in w attempts (decided none declined) = worker_backoff w attempts
delay_in w attempts propagates = 0

-- The callback neither declined nor, inline, raised what is no Exception.
abbrev pub IsAllowed : (inline : Bool) → Option Answer → Type 0
IsAllowed inline a = (a ≢ some declines) × (inline ≡ true → a ≢ some (raising false))

abbrev pub Allows : Option AttemptPolicy → Type 0
Allows none = Unit {0}
Allows (some p) = IsAllowed p.inline p.backoff

abbrev answered : (inline : Bool) → Option Answer → Decision
answered inline none = decided none false
answered inline (some a) = backoff_decision inline a

-- The answers that let the failure be tried again.
answered-IsAllowed :
    (inline : Bool) (a : Option Answer)
    → ((answered inline a ≢ decided none true) × (answered inline a ≢ propagates))
      ↔ IsAllowed inline a
unfolding backoff_decision
answered-IsAllowed inline none = ground arith
answered-IsAllowed inline (some declines) = ground arith
answered-IsAllowed inline (some awaitable) = ground arith
answered-IsAllowed inline (some unusable) = ground arith
answered-IsAllowed inline (some (whole_seconds (pos s))) = ground arith
answered-IsAllowed inline (some (whole_seconds (negsuc s))) = ground arith
answered-IsAllowed inline (some (timedelta (pos m))) = ground arith
answered-IsAllowed inline (some (timedelta (negsuc m))) = ground arith
answered-IsAllowed inline (some (raising true)) = ground arith
answered-IsAllowed true (some (raising false)) = ground arith
answered-IsAllowed false (some (raising false)) = ground arith

answered-ask_backoff : (p : AttemptPolicy) → ask_backoff (some p) ≡ answered p.inline p.backoff
answered-ask_backoff p = elim (Option-cases p.backoff) [
  | inl e ↦ rw e refl
  | inr (a, e) ↦ rw e refl
]

decide-retries_answered :
    (w : Worker) (p : AttemptPolicy) (db_task : OxTask)
    → ((delay : ℕ) × (decide w (some p) db_task ≡ decided (some delay) false)) ↔ (
        (db_task.attempts < db_task.max_attempts)
        × (ask_backoff (some p) ≢ decided none true)
        × (ask_backoff (some p) ≢ propagates))
unfolding decide backoff_decision
decide-retries_answered w p db_task = (
  λ h. ground (arith, h.1),
  λ h. (delay_in w db_task.attempts (ask_backoff (some p)), ground arith),
)

-- A failure is tried again exactly when attempts are left and the callback of the attempt, if it has
-- one, neither declined nor, in an inline worker, raised what is no Exception. So no callback, one that
-- fails, and one whose answer is no delay do not stop the retry.
pub decide-retries_iff :
    (w : Worker) (policy : Option AttemptPolicy) (db_task : OxTask)
    → ((delay : ℕ) × (decide w policy db_task ≡ decided (some delay) false))
      ↔ ((db_task.attempts < db_task.max_attempts) × Allows policy)
unfolding decide
decide-retries_iff w none db_task =
    (λ h. ground (arith, h.1), λ h. (worker_backoff w db_task.attempts, ground arith))
decide-retries_iff w (some p) db_task =
    let (there_, back) = decide-retries_answered w p db_task in
    let (allowed, answers) = answered-IsAllowed p.inline p.backoff in
    let same = answered-ask_backoff p in
    (
      λ h. let (left, a, b) = there_ h in (left, allowed (rw same at a, rw same at b)),
      λ h. let (a, b) = answers h.1 in back (h.0, rw (← same) at a, rw (← same) at b),
    )
