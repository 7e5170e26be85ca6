-- ===== src/Schedules/Interval.antt =====
-- What IntervalTrigger.previous answers.
use native.Mathlib.Nat.{div-mul-le_self, lt-div-mul-add}
use django_ox.Prelude.{
  ℕ, zero, suc, ◌+◌, ◌-◌, ◌*◌, ◌/◌, ◌≤◌, ◌<◌, ◌≡◌, refl, ◌⊎◌, inl, inr, Bool-cases, false, some,
  leb, ltb, arith,
}
use django_ox.Schedules.{IntervalTrigger, interval_epoch, previous}

-- `n` whole intervals from the epoch and the phase, or one interval before the first of them.
abbrev pub IsTick : IntervalTrigger → ℕ → Type 0
IsTick t tick =
    ((n : ℕ) × (tick ≡ interval_epoch + n * t.every + t.phase))
    ⊎ (tick + t.every ≡ interval_epoch + t.phase)

abbrev pub IsLatestTick : IntervalTrigger → ℕ → ℕ → Type 0
IsLatestTick t dt tick = IsTick t tick × (tick ≤ dt) × (dt < tick + t.every)

-- Between one and two intervals, rounded down: one interval.
one_interval :
    (q every d : ℕ) → q * every ≤ d → d < q * every + every → every ≤ d → d < every + every → q ≡ 1
one_interval zero every d h k l m = absurd (omega arith)
one_interval (suc zero) every d h k l m = refl
one_interval (suc (suc q)) every d h k l m =
    let split : suc (suc q) * every ≡ q * every + every + every = omega arith in
    absurd (omega arith)

-- For an interval that is positive and at most MAX_INTERVAL, a phase under it and a clock not before the
-- epoch: previous answers, without an overflow, a tick that is not after the clock and whose next one
-- is.
pub previous_is_latest :
    (t : IntervalTrigger) (dt : ℕ)
    → 0 < t.every
    → t.every ≤ interval_epoch
    → t.phase < t.every
    → interval_epoch ≤ dt
    → (tick : ℕ) × (previous t dt ≡ some tick) × IsLatestTick t dt tick
unfolding previous
previous_is_latest t dt p m f e = elim (Bool-cases (leb (interval_epoch + t.phase) dt)) [
  | inl q ↦
      let d = dt - (interval_epoch + t.phase) in
      let low = div-mul-le_self d t.every in
      let high : d < d / t.every * t.every + t.every = lt-div-mul-add p in
      (
        interval_epoch + d / t.every * t.every + t.phase,
        rw q refl,
        (inl (d / t.every, refl), ground arith, ground arith),
      )
  | inr q ↦
      let d = interval_epoch + t.phase - dt + (t.every - 1) in
      let low = div-mul-le_self d t.every in
      let high : d < d / t.every * t.every + t.every = lt-div-mul-add p in
      let one : d / t.every ≡ 1 =
        one_interval (d / t.every) t.every d low high (ground arith) (ground arith) in
      let back : d / t.every * t.every ≡ t.every = rw one (omega arith) in
      let fits : ltb interval_epoch t.every ≡ false = ground arith in
      (
        interval_epoch - t.every + t.phase,
        rw (q, back, fits) refl,
        (inr (omega arith), ground arith, ground arith),
      )
]
