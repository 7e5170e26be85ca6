-- ===== src/Cron/Walk/First.antt =====
-- CronExpression.following: the whole search.
use django_ox.Prelude.{
  ℕ, zero, suc, ◌+◌, ◌*◌, ◌≤◌, ◌<◌, ◌≡◌, refl, inl, inr, true, false, some, ltb, Bool-cases, arith,
}
use django_ox.Cron.Calendar.{DateTime, IsDate, rank, instant, next_minute, next_hour}
use django_ox.Cron.Ordinal.{rank-instant}
use django_ox.Cron.Walk.{
  CronExpression, matches, step_forward, Step, found, go_to, Search, tick, no_tick, out_of_fuel,
  walk_forward, following, floor_minute, Moment, fuel_for_search, search_days,
}
use django_ox.Cron.Walk.Following.{IsOrdered, Skips, StepOk, step_forward-StepOk}
use django_ox.Cron.Walk.Steps.{days_bound, next_hour-IsDate, hour_forward, in_hour}

-- `t'` is the first tick from `t` on, and before the bound.
pub record IsFirst (e : CronExpression) (bound : ℕ) (t t' : DateTime) : Type 0 where
  pub date : IsDate t'
  pub ticks : matches e t' ≡ true
  pub ahead : rank t ≤ rank t'
  pub in_bound : instant t' < bound
  pub misses : (u : DateTime) → IsDate u → rank t ≤ rank u → rank u < rank t' → matches e u ≡ false

-- What a search from `t` up to a bound is to return: the first tick, or nothing where there is none.
abbrev pub Finds : CronExpression → ℕ → DateTime → Search → Type 0
Finds e bound t (tick t') = IsFirst e bound t t'
Finds e bound t no_tick =
    (u : DateTime) → IsDate u → rank t ≤ rank u → instant u < bound → matches e u ≡ false
Finds e bound t out_of_fuel = ⊥

-- What is left of a round after its step.
abbrev continued : ℕ → CronExpression → ℕ → DateTime → Step → Search
continued fuel e bound t found = tick t
continued fuel e bound t (go_to u) = walk_forward fuel e bound u

walk_forward-round :
    (fuel : ℕ) (e : CronExpression) (bound : ℕ) (t : DateTime)
    → ltb (instant t) bound ≡ true
    → walk_forward (suc fuel) e bound t ≡ continued fuel e bound t (step_forward e t)
unfolding walk_forward
walk_forward-round fuel e bound t q = rw (q, walk_forward) refl

walk_forward-over :
    (fuel : ℕ) (e : CronExpression) (bound : ℕ) (t : DateTime)
    → ltb (instant t) bound ≡ false
    → walk_forward (suc fuel) e bound t ≡ no_tick
unfolding walk_forward
walk_forward-over fuel e bound t q = rw (q, walk_forward) refl

same_instant :
    (t u : DateTime)
    → t.year ≡ u.year
    → t.month ≡ u.month
    → t.day ≡ u.day
    → t.hour ≡ u.hour
    → t.minute ≡ u.minute
    → instant t ≡ instant u
same_instant t u y m d h n =
    λ i. instant (record { year = y i; month = m i; day = d i; hour = h i; minute = n i })

instant_le : (t u : DateTime) → IsDate t → IsDate u → rank t ≤ rank u → instant t ≤ instant u
instant_le t u v w h = elim (Bool-cases (ltb (rank t) (rank u))) [
  | inl q ↦ ground (arith, rank-instant t u v w)
  | inr q ↦
      let y : t.year ≡ u.year =
        ground (arith, days_bound t.year t.month, days_bound u.year u.month) in
      let m : t.month ≡ u.month =
        ground (arith, days_bound t.year t.month, days_bound u.year u.month) in
      let d : t.day ≡ u.day = ground arith in
      let r : t.hour ≡ u.hour = ground arith in
      let n : t.minute ≡ u.minute = ground arith in
      let level : instant t ≡ instant u = same_instant t u y m d r n in ground arith
]

after_skip :
    (e : CronExpression) (bound : ℕ) (t u : DateTime) (s : Search)
    → Skips e t u
    → Finds e bound u s
    → Finds e bound t s
after_skip e bound t u (tick t') s f = record {
  date = f.date;
  ticks = f.ticks;
  ahead = ground (arith, s.forward, f.ahead);
  in_bound = f.in_bound;
  misses = λ w d a b. elim (Bool-cases (ltb (rank w) (rank u))) [
    | inl q ↦ s.misses w d a (ground arith)
    | inr q ↦ f.misses w d (ground arith) b
  ];
}
after_skip e bound t u no_tick s f = λ w d a b. elim (Bool-cases (ltb (rank w) (rank u))) [
  | inl q ↦ s.misses w d a (ground arith)
  | inr q ↦ f w d (ground arith) b
]
after_skip e bound t u out_of_fuel s f = f

-- One round, given what the rest of the search does.
one_round :
    (fuel : ℕ) (e : CronExpression) (bound : ℕ) (t : DateTime)
    → IsDate t
    → instant t < bound
    → ((u : DateTime)
        → IsDate u
        → instant t < instant u
        → Finds e bound u (walk_forward fuel e bound u))
    → (s : Step) → StepOk e t s
    → Finds e bound t (continued fuel e bound t s)
one_round fuel e bound t v b rest found m = record {
  date = v;
  ticks = m;
  ahead = ground arith;
  in_bound = b;
  misses = λ u w x y. absurd (ground arith);
}
one_round fuel e bound t v b rest (go_to u) m =
    after_skip e bound t u (walk_forward fuel e bound u) m
      (rest u m.date (rank-instant t u v m.date m.forward))

walk_forward-Finds :
    (fuel : ℕ) (e : CronExpression) (bound : ℕ) (t : DateTime)
    → IsOrdered e
    → IsDate t
    → bound < instant t + fuel
    → 0 < fuel
    → Finds e bound t (walk_forward fuel e bound t)
walk_forward-Finds zero e bound t o v h p = absurd (ground arith)
walk_forward-Finds (suc fuel) e bound t o v h p = elim (Bool-cases (ltb (instant t) bound)) [
  | inr q ↦
      rw (walk_forward-over fuel e bound t q)
        (λ u w a b. absurd (ground (arith, instant_le t u v w a)))
  | inl q ↦ rw (walk_forward-round fuel e bound t q) (
      one_round fuel e bound t v (ground arith)
        (λ u w a. walk_forward-Finds fuel e bound u o w (ground arith) (ground arith))
        (step_forward e t) (step_forward-StepOk e t o v))
]

next_minute-IsDate : (t : DateTime) → IsDate t → IsDate (next_minute t)
unfolding next_minute
next_minute-IsDate t v = elim (Bool-cases (ltb t.minute 59)) [
  | inl e ↦ rw e (ground arith)
  | inr e ↦ rw e (next_hour-IsDate t v)
]

minute_forward : (t : DateTime) → IsDate t → rank t < rank (next_minute t)
unfolding next_minute
minute_forward t v = elim (Bool-cases (ltb t.minute 59)) [
  | inl e ↦ rw e (ground arith)
  | inr e ↦ rw e (hour_forward t v)
]

after_hour :
    (t u : DateTime)
    → IsDate t
    → IsDate u
    → rank t < rank u
    → 59 ≤ t.minute
    → rank (next_hour t) ≤ rank u
after_hour t u v w h l = elim (Bool-cases (ltb (rank u) (rank (next_hour t)))) [
  | inl q ↦
      let (y, m, d, r) = in_hour t u v w (ground arith) (ground arith) in
      absurd (ground (arith, v.minute_lt, w.minute_lt))
  | inr q ↦ ground arith
]

-- No date lies between a minute and the next one.
next_minute-least :
    (t u : DateTime) → IsDate t → IsDate u → rank t < rank u → rank (next_minute t) ≤ rank u
unfolding next_minute
next_minute-least t u v w h = elim (Bool-cases (ltb t.minute 59)) [
  | inl e ↦ rw e (ground arith)
  | inr e ↦ rw e (after_hour t u v w h (ground arith))
]

-- What following is to return for a wall-clock time: the first tick after it, or the ValueError
-- where no tick comes for the days it searches.
abbrev pub Follows : CronExpression → DateTime → Search → Type 0
Follows e t (tick t') =
    IsDate t'
    × (matches e t' ≡ true)
    × (rank t < rank t')
    × ((u : DateTime) → IsDate u → rank t < rank u → rank u < rank t' → matches e u ≡ false)
Follows e t no_tick =
    (u : DateTime)
    → IsDate u
    → rank t < rank u
    → instant u < instant t + search_days * 1440
    → matches e u ≡ false
Follows e t out_of_fuel = ⊥

Finds-Follows :
    (e : CronExpression) (t : DateTime) (s : Search)
    → IsDate t
    → Finds e (instant (next_minute t) + search_days * 1440) (next_minute t) s
    → Follows e t s
Finds-Follows e t (tick t') v f = (
  f.date,
  f.ticks,
  ground (arith, minute_forward t v, f.ahead),
  λ u w a b. f.misses u w (next_minute-least t u v w a) b,
)
Finds-Follows e t no_tick v f = λ u w a b.
    f u w (next_minute-least t u v w a) (
      ground
        (arith, rank-instant t (next_minute t) v (next_minute-IsDate t v) (minute_forward t v)))
Finds-Follows e t out_of_fuel v f = f

-- For a calendar date without a timezone, `following` returns, and what it returns is a tick
-- strictly after it with no tick in between; or it raises, and then no minute of the
-- 3294 days after it is a tick.
pub following-Follows :
    (e : CronExpression) (m : Moment)
    → IsOrdered e
    → IsDate m.wall
    → m.is_aware ≡ false
    → (s : Search) × (following e m ≡ some s) × Follows e m.wall s
unfolding following floor_minute
following-Follows e m o v h =
    let cur : DateTime = next_minute m.wall in
    let bound : ℕ = instant cur + search_days * 1440 in
    (
      walk_forward fuel_for_search e bound cur,
      rw h refl,
      Finds-Follows e m.wall (walk_forward fuel_for_search e bound cur) v (
          walk_forward-Finds fuel_for_search e bound cur o (next_minute-IsDate m.wall v)
            (ground arith) (ground arith)),
    )
