-- ===== src/Examples/Ticks.antt =====
-- One cron expression: every half hour of two office hours, on Mondays.
use django_ox.Prelude.{◌≡◌, refl, true, false, some, [], ◌∷◌, arith}
use django_ox.Cron.Calendar.{IsDate, days_in_month}
use django_ox.Cron.Text.{Text, int}
use django_ox.Cron.Parse.{
  parse, parsed, from_fields, macros, weekday_names, numbered_from, fold_sunday,
}
use django_ox.Cron.Parse.Fields.{IsValid, parse-IsValid}
use django_ox.Cron.Walk.{CronExpression, Moment, Search, following}
use django_ox.Cron.Walk.First.{Follows}
use django_ox.Cron.Ticks.{parsed-following}

-- "*/30 9-10 * * mon"
abbrev office_hours : Text
office_hours =
    42 ∷ 47 ∷ 51 ∷ 48 ∷ 32 ∷ 57 ∷ 45 ∷ 49 ∷ 48 ∷ 32 ∷ 42 ∷ 32 ∷ 42 ∷ 32 ∷ 109 ∷ 111 ∷ 110 ∷ []

abbrev on_mondays : CronExpression
on_mondays = record {
  minutes = 0 ∷ 30 ∷ [];
  hours = 9 ∷ 10 ∷ [];
  days_of_month =
      1 ∷ 2 ∷ 3 ∷ 4 ∷ 5 ∷ 6 ∷ 7 ∷ 8 ∷ 9 ∷ 10 ∷ 11 ∷ 12 ∷ 13 ∷ 14 ∷ 15 ∷ 16 ∷ 17 ∷ 18 ∷ 19 ∷ 20 ∷ 21
      ∷ 22 ∷ 23 ∷ 24 ∷ 25 ∷ 26 ∷ 27 ∷ 28 ∷ 29 ∷ 30 ∷ 31 ∷ [];
  months = 1 ∷ 2 ∷ 3 ∷ 4 ∷ 5 ∷ 6 ∷ 7 ∷ 8 ∷ 9 ∷ 10 ∷ 11 ∷ 12 ∷ [];
  days_of_week = 1 ∷ [];
  dom_restricted = false;
  dow_restricted = true;
}

-- A Saturday in 2026, ten past four.
abbrev a_saturday : Moment
a_saturday = record {
  wall = record { year = 2026; month = 2; day = 28; hour = 16; minute = 10 };
  micros = 5;
  is_aware = false;
}

office_hours-parsed : parse office_hours ≡ parsed on_mondays
unfolding parse from_fields macros int weekday_names numbered_from fold_sunday
office_hours-parsed = refl

a_saturday-IsDate : IsDate a_saturday.wall
unfolding days_in_month
a_saturday-IsDate = ground arith

parse-IsValid_example : IsValid on_mondays
parse-IsValid_example = parse-IsValid office_hours on_mondays office_hours-parsed

parsed-following_example :
    (found : Search) × (following on_mondays a_saturday ≡ some found)
    × Follows on_mondays a_saturday.wall found
parsed-following_example =
    parsed-following office_hours on_mondays a_saturday office_hours-parsed a_saturday-IsDate refl
