-- ===== src/Cron/Walk.antt =====
-- CronExpression.matches, following and previous.
use django_ox.Prelude.{
  ℕ, zero, suc, ◌+◌, ◌-◌, ◌*◌, ◌%◌, Bool, true, false, ◌&&◌, ◌||◌, not, Option, none, some, List,
  [], ◌∷◌, ltb, ◌==◌, if◌then◌else◌, any, select, head?,
}
use django_ox.Cron.Calendar.{
  DateTime, weekday, instant, next_month, next_day, next_hour, next_minute, month_before,
  day_before, hour_before,
}
pub mod Steps
pub mod Following
pub mod First

-- The parsed fields.
pub record CronExpression : Type 0 where
  pub minutes : List ℕ
  pub hours : List ℕ
  pub days_of_month : List ℕ
  pub months : List ℕ
  pub days_of_week : List ℕ
  pub dom_restricted : Bool
  pub dow_restricted : Bool

abbrev pub has : List ℕ → ℕ → Bool
has xs n = any (λ x. x == n) xs

unfoldable pub day_matches : CronExpression → DateTime → Bool
unfolding weekday
day_matches e t =
    let dom_ok = has e.days_of_month t.day in
    let dow_ok = has e.days_of_week ((weekday t + 1) % 7) in
    if e.dom_restricted && e.dow_restricted then dom_ok || dow_ok else dom_ok && dow_ok

unfoldable pub matches : CronExpression → DateTime → Bool
unfolding day_matches
matches e t =
    has e.minutes t.minute && has e.hours t.hour && has e.months t.month && day_matches e t

-- Those of a tuple above, and the last of those below.
abbrev pub later : List ℕ → ℕ → List ℕ
later xs n = select (ltb n) xs

abbrev pub last? : List ℕ → Option ℕ
last? [] = none
last? (x ∷ []) = some x
last? (x ∷ y ∷ xs) = last? (y ∷ xs)

abbrev pub earlier : List ℕ → ℕ → List ℕ
earlier xs n = select (λ x. ltb x n) xs

-- One round of the loop of following: the tick, or where to look next.
pub data Step : Type 0 where
  found : Step
  go_to : DateTime → Step

abbrev pub hour_or_next_day : DateTime → Option ℕ → DateTime
hour_or_next_day t none = next_day t
hour_or_next_day t (some h) = record t { hour = h; minute = 0 }

abbrev pub minute_or_next_hour : DateTime → Option ℕ → DateTime
minute_or_next_hour t none = next_hour t
minute_or_next_hour t (some m) = record t { minute = m }

unfoldable pub step_forward : CronExpression → DateTime → Step
unfolding day_matches
step_forward e t =
    if not (has e.months t.month)
    then go_to (next_month t)
    else if not (day_matches e t)
    then go_to (next_day t)
    else if not (has e.hours t.hour)
    then go_to (hour_or_next_day t (head? (later e.hours t.hour)))
    else if not (has e.minutes t.minute)
    then go_to (minute_or_next_hour t (head? (later e.minutes t.minute)))
    else found

abbrev pub hour_or_day_before : DateTime → Option ℕ → DateTime
hour_or_day_before t none = day_before t
hour_or_day_before t (some h) = record t { hour = h; minute = 59 }

abbrev pub minute_or_hour_before : DateTime → Option ℕ → DateTime
minute_or_hour_before t none = hour_before t
minute_or_hour_before t (some m) = record t { minute = m }

unfoldable pub step_back : CronExpression → DateTime → Step
unfolding day_matches
step_back e t =
    if not (has e.months t.month)
    then go_to (month_before t)
    else if not (day_matches e t)
    then go_to (day_before t)
    else if not (has e.hours t.hour)
    then go_to (hour_or_day_before t (last? (earlier e.hours t.hour)))
    else if not (has e.minutes t.minute)
    then go_to (minute_or_hour_before t (last? (earlier e.minutes t.minute)))
    else found

-- What a search returns: a tick, the ValueError of a search past its bound, or a loop that has run
-- out of the model's fuel.
pub data Search : Type 0 where
  tick : DateTime → Search
  no_tick : Search
  out_of_fuel : Search

abbrev pub search_days : ℕ
search_days = 3294

unfoldable pub walk_forward : ℕ → CronExpression → (bound : ℕ) → DateTime → Search
unfolding step_forward instant
walk_forward zero e bound t = out_of_fuel
walk_forward (suc fuel) e bound t = elim (ltb (instant t) bound) [
  | false ↦ no_tick
  | true ↦ elim (step_forward e t) [ found ↦ tick t | go_to t' ↦ walk_forward fuel e bound t' ]
]

-- `while cur > bound`, the bound given by the minutes that are left above it.
unfoldable pub walk_back : ℕ → CronExpression → (bound : ℕ) → DateTime → Search
unfolding step_back instant
walk_back zero e bound t = out_of_fuel
walk_back (suc fuel) e bound t = elim (ltb bound (instant t)) [
  | false ↦ no_tick
  | true ↦ elim (step_back e t) [ found ↦ tick t | go_to t' ↦ walk_back fuel e bound t' ]
]

-- The argument: its wall-clock fields, what is below a minute, and whether it has a timezone.
pub record Moment : Type 0 where
  pub wall : DateTime
  pub micros : ℕ
  pub is_aware : Bool

-- _floor_minute; none is its ValueError.
unfoldable pub floor_minute : Moment → Option DateTime
floor_minute m = if m.is_aware then none else some m.wall

-- Each round moves by a minute at least, so the minutes to the bound are fuel enough.
abbrev pub fuel_for_search : ℕ
fuel_for_search = suc (search_days * 1440)

unfoldable pub following : CronExpression → Moment → Option Search
unfolding floor_minute walk_forward next_minute
following e m = elim (floor_minute m) [
  | none ↦ none
  | some t ↦
      let cur = next_minute t in
      some (walk_forward fuel_for_search e (instant cur + search_days * 1440) cur)
]

unfoldable pub previous : CronExpression → Moment → Option Search
unfolding floor_minute walk_back
previous e m = elim (floor_minute m) [
  | none ↦ none
  | some t ↦ some (walk_back fuel_for_search e (instant t - search_days * 1440) t)
]
