-- ===== src/Schedules/Stored/Overflow.antt =====
-- What _ticks_overflow keeps out: exactly the intervals whose tick cannot be derived at some clock.
use native.Mathlib.Nat.{div-mul-le_self, lt-div-mul-add, div-lt_iff_lt-mul, mul-le-mul_right}
use django_ox.Prelude.{
  ℕ, suc, ◌+◌, ◌-◌, ◌*◌, ◌/◌, ◌≤◌, ◌<◌, ◌≡◌, ◌≢◌, ◌↔◌, refl, inl, inr, Bool-cases, true, false,
  none, leb, ltb, arith,
}
use django_ox.Schedules.{IntervalTrigger, interval_epoch, previous}
use django_ox.Schedules.Stored.Validate.{longest_interval}
use django_ox.Schedules.Stored.Build.{ticks_overflow, second}

-- Whole intervals that reach `n`, rounded up, are no more than any whole intervals that do.
pub rounded_up : (n d q : ℕ) → 0 < d → n ≤ q * d → (n + (d - 1)) / d ≤ q
rounded_up n d q p h =
    let below : n + (d - 1) < suc q * d = omega arith in
    let less = (div-lt_iff_lt-mul {k = d} {x = n + (d - 1)} {y = suc q} p).1 below in omega arith

-- And they reach it.
reaches : (n d : ℕ) → 0 < d → n ≤ (n + (d - 1)) / d * d
reaches n d p = let high : n + (d - 1) < (n + (d - 1)) / d * d + d = lt-div-mul-add p in omega arith

-- In seconds and in microseconds the intervals are as many.
fewer_back :
    (every phase gap : ℕ)
    → 0 < every
    → gap ≤ phase * second
    → (gap + (every * second - 1)) / (every * second) ≤ (phase + (every - 1)) / every
fewer_back every phase gap p h =
    let q = (phase + (every - 1)) / every in
    let reach = reaches phase every p in
    rounded_up gap (every * second) q (omega arith) (omega arith)

as_many_back :
    (every phase : ℕ)
    → 0 < every
    → (phase + (every - 1)) / every ≤ (phase * second + (every * second - 1)) / (every * second)
as_many_back every phase p =
    let r = (phase * second + (every * second - 1)) / (every * second) in
    let reach = reaches (phase * second) (every * second) (omega arith) in
    rounded_up phase every r p (omega arith)

abbrev pub interval_in_seconds : (every phase : ℕ) → IntervalTrigger
interval_in_seconds every phase = record { every = every * second; phase = phase * second }

derives :
    (every phase dt : ℕ)
    → 0 < every
    → every ≤ longest_interval
    → ticks_overflow every phase ≡ false
    → interval_epoch ≤ dt
    → previous (interval_in_seconds every phase) dt ≢ none
unfolding previous ticks_overflow
derives every phase dt p m h e k = elim (Bool-cases (leb (interval_epoch + phase * second) dt)) [
  | inl q ↦ absurd (let x = rw q at k in cc)
  | inr q ↦
      let gap = interval_epoch + phase * second - dt in
      let c = (gap + (every * second - 1)) / (every * second) in
      let fewer : c ≤ (phase + (every - 1)) / every = fewer_back every phase gap p (omega arith) in
      let whole = mul-le-mul_right (every * second) fewer in
      let short : (phase + (every - 1)) / every * every ≤ longest_interval = ground arith in
      let fits : ltb interval_epoch (c * (every * second)) ≡ false = ground arith in
      absurd (let x = rw (q, fits) at k in cc)
]

overflows :
    (every phase : ℕ)
    → 0 < every
    → every ≤ longest_interval
    → ticks_overflow every phase ≡ true
    → previous (interval_in_seconds every phase) interval_epoch ≡ none
unfolding previous ticks_overflow
overflows every phase p m h =
    let n = (phase + (every - 1)) / every in
    let far : longest_interval < n * every = ground arith in
    let low = div-mul-le_self (phase + (every - 1)) every in
    let late : leb (interval_epoch + phase * second) interval_epoch ≡ false = ground arith in
    let same : interval_epoch + phase * second - interval_epoch ≡ phase * second = omega arith in
    let more = mul-le-mul_right (every * second) (as_many_back every phase p) in
    let back : ltb interval_epoch
          ((phase * second + (every * second - 1)) / (every * second) * (every * second))
        ≡ true =
      ground arith in
    rw (late, same, back) refl

-- For an interval of at least a second and at most MAX_INTERVAL, with any phase: _ticks_overflow lets it
-- pass exactly when its trigger can derive a tick at every clock from the epoch on.
pub ticks_overflow_iff :
    (every phase : ℕ)
    → 0 < every
    → every ≤ longest_interval
    → (ticks_overflow every phase ≡ false)
      ↔ ((dt : ℕ) → interval_epoch ≤ dt → previous (interval_in_seconds every phase) dt ≢ none)
ticks_overflow_iff every phase p m = (
  λ h dt e. derives every phase dt p m h e,
  λ h. elim (Bool-cases (ticks_overflow every phase)) [
    | inr e ↦ e
    | inl e ↦ absurd (h interval_epoch (omega arith) (overflows every phase p m e))
  ],
)
