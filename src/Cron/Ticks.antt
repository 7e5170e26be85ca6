-- ===== src/Cron/Ticks.antt =====
-- CronExpression(text).following(dt), from the text to the tick.
use django_ox.Prelude.{◌≡◌, false, some}
use django_ox.Cron.Calendar.{IsDate}
use django_ox.Cron.Text.{Text}
use django_ox.Cron.Parse.{parse, parsed}
use django_ox.Cron.Parse.Fields.{parse-IsValid}
use django_ox.Cron.Walk.{CronExpression, Moment, Search, following}
use django_ox.Cron.Walk.First.{Follows, following-Follows}

-- For an expression that parsed and a calendar date without a timezone, `following` returns, within
-- its fuel: either a calendar minute that matches, strictly after the date, with no matching minute
-- strictly between the two; or its ValueError, and then no minute after the date and less than 3294
-- days from it matches.
pub parsed-following :
    (s : Text) (e : CronExpression) (m : Moment)
    → parse s ≡ parsed e
    → IsDate m.wall
    → m.is_aware ≡ false
    → (found : Search) × (following e m ≡ some found) × Follows e m.wall found
parsed-following s e m p v h =
    let valid = parse-IsValid s e p in
    following-Follows e m
      (record { minutes_ordered = valid.minutes_within.0; hours_ordered = valid.hours_within.0 }) v
      h
