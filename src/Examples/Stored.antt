-- ===== src/Examples/Stored.antt =====
-- A stored interval of a minute, and its schedule.
use django_ox.Prelude.{
  ℕ, ◌+◌, ◌*◌, ◌≤◌, ◌≡◌, ◌≢◌, ◌↔◌, refl, true, false, Option, none, some, [], arith, if◌then◌else◌,
  ◌==◌,
}
use django_ox.Cron.Walk.{CronExpression}
use django_ox.Schedules.{interval_epoch, previous, Schedule}
use django_ox.Schedules.Interval.{IsLatestTick}
use django_ox.Schedules.Stored.{
  pos, number, missing, time, no_bound, interval_trigger, OxSchedule, Rules, Range, Kind,
}
use django_ox.Schedules.Stored.Validate.{
  validate_schedule, found_errors, range_errors, column_errors, trigger_errors, interval_errors,
  time_errors, zone_errors, bound_errors, argument_errors,
}
use django_ox.Schedules.Stored.Build.{to_schedule, ticks_overflow, second}
use django_ox.Schedules.Stored.Overflow.{interval_in_seconds, ticks_overflow_iff}
use django_ox.Schedules.Stored.Accepted.{accepted_interval_plans}
use django_ox.Examples.{a_call}

abbrev a_kind : Kind
a_kind = record { form = none; call = λ args. record a_call { kwargs = args } }

abbrev positive : Range
positive = record { low = some (pos 0); high = some (pos 2147483647) }

abbrev the_rules : Rules
the_rules = record {
  kinds = λ key. if key == 3 then some a_kind else none;
  registry_decides = true;
  use_tz = true;
  overflows = λ at aware. false;
  destination = positive;
  held = positive;
}

abbrev each_minute : OxSchedule
each_minute = record {
  pk = 1;
  task_key = 3;
  trigger = interval_trigger;
  cron = [];
  every_seconds = number (pos 60);
  phase_seconds = number (pos 30);
  starting_deadline_seconds = missing;
  start_time = time 500 true;
  end_time = no_bound;
  arguments = some "{}";
}

abbrev no_ticks : CronExpression → ℕ → Option ℕ
no_ticks e dt = none

abbrev own_key : ℕ → ℕ
own_key pk = pk

accepted_interval_plans_example :
    (d : Schedule) × (to_schedule the_rules no_ticks own_key each_minute ≡ some d)
    × ((tick : ℕ) × (d.trigger (interval_epoch + 90 * second) ≡ some tick)
        × IsLatestTick (interval_in_seconds 60 30) (interval_epoch + 90 * second) tick)
unfolding validate_schedule found_errors range_errors column_errors trigger_errors interval_errors
    time_errors zone_errors bound_errors argument_errors
accepted_interval_plans_example =
    accepted_interval_plans the_rules no_ticks own_key each_minute 60 30
      (interval_epoch + 90 * second) refl refl refl refl refl (some 500, refl) (none, refl) refl
      (omega arith)

ticks_overflow_iff_example :
    (ticks_overflow 60 30 ≡ false)
    ↔ ((dt : ℕ) → interval_epoch ≤ dt → previous (interval_in_seconds 60 30) dt ≢ none)
ticks_overflow_iff_example = ticks_overflow_iff 60 30 (omega arith) (omega arith)
