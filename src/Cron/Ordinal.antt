-- ===== src/Cron/Ordinal.antt =====
-- The order of dates and the order of their instants.
use django_ox.Prelude.{
  ℕ, zero, suc, ◌+◌, ◌-◌, ◌*◌, ◌≤◌, ◌<◌, ◌≡◌, refl, inl, inr, ltb, arith, Bool-cases, ap,
}
use django_ox.Cron.Calendar.{
  DateTime, IsDate, rank, instant, ordinal, days_in_month, days_before_month, days_before_year,
  is_leap,
}

days_bound : (y m : ℕ) → days_in_month y m ≤ 31
unfolding days_in_month
days_bound y m = ground arith

year_length :
    (y : ℕ) → 1 ≤ y → days_before_year (y + 1) ≡ days_before_year y + days_before_month y 13
unfolding days_before_year days_before_month days_in_month is_leap
year_length y h = ground arith

months_grow : (y m n : ℕ) → m ≤ n → days_before_month y m ≤ days_before_month y n
unfolding days_before_month
months_grow y m zero h = let none_left : m ≡ 0 = ground arith in rw none_left (ground arith)
months_grow y m (suc n) h = elim (Bool-cases (ltb n m)) [
  | inl q ↦ let all : m ≡ suc n = ground arith in rw all (ground arith)
  | inr q ↦ ground (arith, months_grow y m n (ground arith))
]

month_room : (y m n : ℕ) → m < n → days_before_month y m + days_in_month y m ≤ days_before_month y n
unfolding days_before_month
month_room y m n h = ground (arith, months_grow y (suc m) n h)

years_grow : (y k : ℕ) → days_before_year y ≤ days_before_year (y + k)
unfolding days_before_year
years_grow y k = ground arith

year_room :
    (y z : ℕ) → 1 ≤ y → y < z → days_before_year y + days_before_month y 13 ≤ days_before_year z
year_room y z p h =
    let k : y + 1 + (z - (y + 1)) ≡ z = ground arith in
    let g : days_before_year (y + 1) ≤ days_before_year (y + 1 + (z - (y + 1))) =
      years_grow (y + 1) (z - (y + 1)) in
    ground (arith, year_length y p, rw k at g)

same_ordinal :
    (t u : DateTime) → t.year ≡ u.year → t.month ≡ u.month → t.day ≡ u.day → ordinal t ≡ ordinal u
unfolding ordinal
same_ordinal t u y m d =
    λ i. ordinal (record { year = y i; month = m i; day = d i; hour = 0; minute = 0 })

-- The date, by the day.
days_mono :
    (t u : DateTime)
    → IsDate t
    → IsDate u
    → (t.year * 13 + t.month) * 32 + t.day < (u.year * 13 + u.month) * 32 + u.day
    → ordinal t < ordinal u
unfolding ordinal
days_mono t u v w h = elim (Bool-cases (ltb t.year u.year)) [
  | inl y ↦ ground (
    arith,
    month_room t.year t.month 13,
    year_room t.year u.year,
    v.month_le,
    v.day_le,
    w.day_pos,
  )
  | inr y ↦
      let same : t.year ≡ u.year =
        ground (arith, days_bound t.year t.month, days_bound u.year u.month) in
      elim (Bool-cases (ltb t.month u.month)) [
        | inl m ↦
            let room : days_before_month t.year t.month + days_in_month t.year t.month
                ≤ days_before_month u.year u.month =
              rw same (month_room u.year t.month u.month (ground arith)) in
            ground (arith, ap days_before_year same)
        | inr m ↦
            let level : t.month ≡ u.month =
              ground (arith, days_bound t.year t.month, days_bound u.year u.month) in
            let months : days_before_month t.year t.month ≡ days_before_month u.year u.month =
              rw (same, level) refl in
            ground (arith, ap days_before_year same)
      ]
]

pub rank-instant : (t u : DateTime) → IsDate t → IsDate u → rank t < rank u → instant t < instant u
unfolding instant
rank-instant t u v w h =
    elim (Bool-cases
      (ltb ((t.year * 13 + t.month) * 32 + t.day) ((u.year * 13 + u.month) * 32 + u.day))) [
        | inl d ↦ ground (arith, days_mono t u v w)
        | inr d ↦
            let y : t.year ≡ u.year =
              ground (arith, days_bound t.year t.month, days_bound u.year u.month) in
            let m : t.month ≡ u.month =
              ground (arith, days_bound t.year t.month, days_bound u.year u.month) in
            let k : t.day ≡ u.day = ground arith in
            let o : ordinal t ≡ ordinal u = same_ordinal t u y m k in ground arith
      ]
