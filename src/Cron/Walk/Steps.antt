-- ===== src/Cron/Walk/Steps.antt =====
-- The next month, day and hour, as src/django_ox/cron.py moves to them: dates again, later ones, and
-- what lies between.
use django_ox.Prelude.{ℕ, ◌+◌, ◌*◌, ◌≤◌, ◌<◌, ◌≡◌, inl, inr, ltb, Bool-cases, arith}
use django_ox.Cron.Calendar.{DateTime, IsDate, rank, days_in_month, next_month, next_day, next_hour}

pub days_bound : (y m : ℕ) → days_in_month y m ≤ 31
unfolding days_in_month
days_bound y m = ground arith

pub days_some : (y m : ℕ) → 1 ≤ m → 28 ≤ days_in_month y m
unfolding days_in_month
days_some y m h = ground arith

pub next_month-IsDate : (t : DateTime) → IsDate t → IsDate (next_month t)
unfolding next_month
next_month-IsDate t v = ground (arith, days_some (t.year + 1) 1, days_some t.year (t.month + 1))

pub next_day-IsDate : (t : DateTime) → IsDate t → IsDate (next_day t)
unfolding next_day
next_day-IsDate t v = elim (Bool-cases (ltb t.day (days_in_month t.year t.month))) [
  | inl e ↦ rw e (ground arith)
  | inr e ↦ rw e (next_month-IsDate t v)
]

pub next_hour-IsDate : (t : DateTime) → IsDate t → IsDate (next_hour t)
unfolding next_hour
next_hour-IsDate t v = elim (Bool-cases (ltb t.hour 23)) [
  | inl e ↦ rw e (ground arith)
  | inr e ↦ rw e (next_day-IsDate t v)
]

-- A date from `t` on and before the first of the next month is in the month of `t`.
pub in_month :
    (t u : DateTime)
    → IsDate t
    → IsDate u
    → rank t ≤ rank u
    → rank u < rank (next_month t)
    → (u.year ≡ t.year) × (u.month ≡ t.month)
unfolding next_month
in_month t u v w a b = ground (arith, days_bound u.year u.month, days_bound t.year t.month)

pub in_day :
    (t u : DateTime)
    → IsDate t
    → IsDate u
    → rank t ≤ rank u
    → rank u < rank (next_day t)
    → (u.year ≡ t.year) × (u.month ≡ t.month) × (u.day ≡ t.day)
unfolding next_day
in_day t u v w a b = elim (Bool-cases (ltb t.day (days_in_month t.year t.month))) [
  | inl e ↦
      let c : rank u < (((t.year * 13 + t.month) * 32 + (t.day + 1)) * 24 + 0) * 60 + 0 =
        rw e at b in
      ground (arith, days_bound u.year u.month, days_bound t.year t.month)
  | inr e ↦
      let c : rank u < rank (next_month t) = rw e at b in
      let (y, m) = in_month t u v w a c in
      let d : days_in_month u.year u.month ≡ days_in_month t.year t.month = rw (y, m) in
      (y, m, ground (arith, w.day_le))
]

pub in_hour :
    (t u : DateTime)
    → IsDate t
    → IsDate u
    → rank t ≤ rank u
    → rank u < rank (next_hour t)
    → (u.year ≡ t.year) × (u.month ≡ t.month) × (u.day ≡ t.day) × (u.hour ≡ t.hour)
unfolding next_hour
in_hour t u v w a b = elim (Bool-cases (ltb t.hour 23)) [
  | inl e ↦
      let c : rank u < (((t.year * 13 + t.month) * 32 + t.day) * 24 + (t.hour + 1)) * 60 + 0 =
        rw e at b in
      ground (arith, days_bound u.year u.month, days_bound t.year t.month)
  | inr e ↦
      let c : rank u < rank (next_day t) = rw e at b in
      let (y, m, d) = in_day t u v w a c in (y, m, d, ground arith)
]

pub month_forward : (t : DateTime) → IsDate t → rank t < rank (next_month t)
unfolding next_month
month_forward t v = ground (arith, v.day_le, days_bound t.year t.month)

pub day_forward : (t : DateTime) → IsDate t → rank t < rank (next_day t)
unfolding next_day
day_forward t v = elim (Bool-cases (ltb t.day (days_in_month t.year t.month))) [
  | inl e ↦ rw e (ground arith)
  | inr e ↦ rw e (month_forward t v)
]

pub hour_forward : (t : DateTime) → IsDate t → rank t < rank (next_hour t)
unfolding next_hour
hour_forward t v = elim (Bool-cases (ltb t.hour 23)) [
  | inl e ↦ rw e (ground arith)
  | inr e ↦ rw e (day_forward t v)
]
