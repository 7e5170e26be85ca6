-- ===== src/Cron/Walk/Following.antt =====
-- The rounds of the loop of following.
use django_ox.Prelude.{
  ℕ, ◌≤◌, ◌<◌, ◌≡◌, refl, inl, inr, true, false, Option, none, some, List, [], ◌∷◌, ltb, head?, All,
  Bool-cases, arith, unsome, none-ne-some, sym, ap, ◌∙◌,
}
use django_ox.Cron.Calendar.{DateTime, IsDate, rank, next_month, next_day}
use django_ox.Cron.Walk.{
  CronExpression, has, later, matches, day_matches, step_forward, Step, found, go_to,
  hour_or_next_day, minute_or_next_hour,
}
use django_ox.Cron.Walk.Steps.{
  days_bound, next_month-IsDate, next_day-IsDate, next_hour-IsDate, in_month, in_day, in_hour,
  month_forward, day_forward, hour_forward,
}

same_day :
    (e : CronExpression) (t u : DateTime)
    → u.year ≡ t.year
    → u.month ≡ t.month
    → u.day ≡ t.day
    → day_matches e u ≡ day_matches e t
unfolding day_matches
same_day e t u y m d = λ i.
    day_matches e (record { year = y i; month = m i; day = d i; hour = u.hour; minute = u.minute })

-- The values of a field, in order and below a limit.
abbrev pub InOrder : ℕ → List ℕ → Type 0
InOrder limit [] = Unit
InOrder limit (x ∷ xs) = (x < limit) × All (λ y. x ≤ y) xs × InOrder limit xs

has-above : (y : ℕ) (ys : List ℕ) (x : ℕ) → All (λ z. y ≤ z) ys → has ys x ≡ true → y ≤ x
has-above y [] x a h = cc
has-above y (z ∷ zs) x a h = ground (arith, has-above y zs x a.1)

least_later :
    (limit : ℕ) (xs : List ℕ) (n h : ℕ)
    → InOrder limit xs
    → head? (later xs n) ≡ some h
    → (n < h) × (h < limit) × ((x : ℕ) → has xs x ≡ true → n < x → h ≤ x)
least_later limit [] n h s e = cc
least_later limit (y ∷ ys) n h s e = elim (Bool-cases (ltb n y)) [
  | inl q ↦
      let same : y ≡ h = unsome (rw q at e) in
      (ground arith, ground arith, λ x k l. ground (arith, has-above y ys x s.1))
  | inr q ↦
      let (a, b, c) = least_later limit ys n h s.2 (rw q at e) in
      (a, b, λ x k l. ground (arith, c x))
]

nothing_later :
    (xs : List ℕ) (n : ℕ) → head? (later xs n) ≡ none → (x : ℕ) → has xs x ≡ true → x ≤ n
nothing_later [] n e x k = cc
nothing_later (y ∷ ys) n e x k = elim (Bool-cases (ltb n y)) [
  | inl q ↦ absurd (none-ne-some (sym (rw q at e)))
  | inr q ↦ ground (arith, nothing_later ys n (rw q at e) x)
]

pub record IsOrdered (e : CronExpression) : Type 0 where
  pub minutes_ordered : InOrder 60 e.minutes
  pub hours_ordered : InOrder 24 e.hours

-- Where a round of the loop sends the search: forward, and past no tick.
pub record Skips (e : CronExpression) (t t' : DateTime) : Type 0 where
  pub date : IsDate t'
  pub forward : rank t < rank t'
  pub misses : (u : DateTime) → IsDate u → rank t ≤ rank u → rank u < rank t' → matches e u ≡ false

true-ne-false : true ≡ false → ⊥
true-ne-false h = cc

no_month : (e : CronExpression) (u : DateTime) → has e.months u.month ≡ false → matches e u ≡ false
unfolding matches
no_month e u h = ground arith

no_day : (e : CronExpression) (u : DateTime) → day_matches e u ≡ false → matches e u ≡ false
unfolding matches
no_day e u h = ground arith

no_hour : (e : CronExpression) (u : DateTime) → has e.hours u.hour ≡ false → matches e u ≡ false
unfolding matches
no_hour e u h = ground arith

no_minute :
    (e : CronExpression) (u : DateTime) → has e.minutes u.minute ≡ false → matches e u ≡ false
unfolding matches
no_minute e u h = ground arith

module _ (e : CronExpression) (t : DateTime) (v : IsDate t) where
  skip_month : has e.months t.month ≡ false → Skips e t (next_month t)
  skip_month h = record {
    date = next_month-IsDate t v;
    forward = month_forward t v;
    misses = λ u w a b. no_month e u (ap (has e.months) (in_month t u v w a b).1 ∙ h);
  }

  skip_day : day_matches e t ≡ false → Skips e t (next_day t)
  skip_day h = record {
    date = next_day-IsDate t v;
    forward = day_forward t v;
    misses = λ u w a b. let (y, m, d) = in_day t u v w a b in no_day e u (same_day e t u y m d ∙ h);
  }

  -- Nothing listed lies between the hour and the next listed one, or the end of the day.
  between_hours :
      (t' : DateTime)
      → has e.hours t.hour ≡ false
      → IsDate t'
      → rank t < rank t'
      → ((u : DateTime)
          → IsDate u
          → rank t ≤ rank u
          → rank u < rank t'
          → has e.hours u.hour ≡ false)
      → Skips e t t'
  between_hours t' h d f m = record {
    date = d;
    forward = f;
    misses = λ u w a b. no_hour e u (m u w a b);
  }

  skip_hour :
      IsOrdered e
      → has e.hours t.hour ≡ false
      → (next : Option ℕ) → head? (later e.hours t.hour) ≡ next
      → Skips e t (hour_or_next_day t next)
  skip_hour o h none q =
      between_hours (next_day t) h (next_day-IsDate t v) (day_forward t v) λ u w a b.
        let (y, m, d) = in_day t u v w a b in
        elim (Bool-cases (has e.hours u.hour)) [
          | inl k ↦
              let le = nothing_later e.hours t.hour q u.hour k in
              let same : u.hour ≡ t.hour = ground arith in
              absurd (true-ne-false (sym k ∙ ap (has e.hours) same ∙ h))
          | inr k ↦ k
        ]
  skip_hour o h (some n) q =
      let (lt, below, least) = least_later 24 e.hours t.hour n o.hours_ordered q in
      between_hours (record t { hour = n; minute = 0 }) h (ground arith) (ground arith)
        λ u w a b. elim (Bool-cases (has e.hours u.hour)) [
          | inl k ↦
              let bigger : t.hour < u.hour → n ≤ u.hour = least u.hour k in
              let same : u.hour ≡ t.hour =
                ground (arith, days_bound u.year u.month, days_bound t.year t.month) in
              absurd (true-ne-false (sym k ∙ ap (has e.hours) same ∙ h))
          | inr k ↦ k
        ]

  skip_minute :
      IsOrdered e
      → has e.minutes t.minute ≡ false
      → (next : Option ℕ) → head? (later e.minutes t.minute) ≡ next
      → Skips e t (minute_or_next_hour t next)
  skip_minute o h none q = record {
    date = next_hour-IsDate t v;
    forward = hour_forward t v;
    misses = λ u w a b.
        let (y, m, d, hr) = in_hour t u v w a b in
        no_minute e u (elim (Bool-cases (has e.minutes u.minute)) [
          | inl k ↦
              let le = nothing_later e.minutes t.minute q u.minute k in
              let same : u.minute ≡ t.minute = ground arith in
              absurd (true-ne-false (sym k ∙ ap (has e.minutes) same ∙ h))
          | inr k ↦ k
        ]);
  }
  skip_minute o h (some n) q =
      let (lt, below, least) = least_later 60 e.minutes t.minute n o.minutes_ordered q in
      record {
        date = ground arith;
        forward = ground arith;
        misses = λ u w a b. no_minute e u (elim (Bool-cases (has e.minutes u.minute)) [
          | inl k ↦
              let bigger : t.minute < u.minute → n ≤ u.minute = least u.minute k in
              let same : u.minute ≡ t.minute =
                ground (arith, days_bound u.year u.month, days_bound t.year t.month) in
              absurd (true-ne-false (sym k ∙ ap (has e.minutes) same ∙ h))
          | inr k ↦ k
        ]);
      }

all_match :
    (e : CronExpression) (t : DateTime)
    → has e.months t.month ≡ true
    → day_matches e t ≡ true
    → has e.hours t.hour ≡ true
    → has e.minutes t.minute ≡ true
    → matches e t ≡ true
unfolding matches
all_match e t m d h n = ground arith

-- What a round of the loop promises.
abbrev pub StepOk : CronExpression → DateTime → Step → Type 0
StepOk e t found = matches e t ≡ true
StepOk e t (go_to t') = Skips e t t'

pub step_forward-StepOk :
    (e : CronExpression) (t : DateTime) → IsOrdered e → IsDate t → StepOk e t (step_forward e t)
unfolding step_forward
step_forward-StepOk e t o v = elim (Bool-cases (has e.months t.month)) [
  | inr m ↦ rw m (skip_month e t v m)
  | inl m ↦ elim (Bool-cases (day_matches e t)) [
    | inr d ↦ rw (m, d) (skip_day e t v d)
    | inl d ↦ elim (Bool-cases (has e.hours t.hour)) [
      | inr h ↦ rw (m, d, h) (skip_hour e t v o h _ refl)
      | inl h ↦ elim (Bool-cases (has e.minutes t.minute)) [
        | inr n ↦ rw (m, d, h, n) (skip_minute e t v o n _ refl)
        | inl n ↦ rw (m, d, h, n) (all_match e t m d h n)
      ]
    ]
  ]
]
