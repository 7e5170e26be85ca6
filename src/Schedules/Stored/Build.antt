-- ===== src/Schedules/Stored/Build.antt =====
-- src/django_ox/stored.py: _ticks_overflow, and the schedule that a worker makes of a row,
-- DatabaseScheduleSource._to_schedule.
use django_ox.Prelude.{
  ℕ, ◌+◌, ◌-◌, ◌*◌, ◌/◌, Bool, false, ◌||◌, Option, none, some, String, ltb, ◌==◌, if◌then◌else◌,
}
use django_ox.Cron.Walk.{CronExpression}
use django_ox.Cron.Parse.{Parsed, raised, parsed, parse}
use django_ox.Schedules.{IntervalTrigger, Schedule, previous}
use django_ox.Schedules.Stored.{
  ◌>>=◌, Value, Bound, OxSchedule, Form, Kind, Rules, pos, number, no_bound, blank_bound,
  not_a_time, time, cron_trigger, interval_trigger, unknown_trigger,
}
use django_ox.Schedules.Stored.Validate.{differ, longest_interval}

-- _ticks_overflow, on what the columns can hold.
unfoldable pub ticks_overflow : (every phase : ℕ) → Bool
ticks_overflow every phase =
    ltb longest_interval every || ltb longest_interval ((phase + (every - 1)) / every * every)

abbrev pub second : ℕ
second = 1000000

-- What a form makes of the arguments that reach the task.
abbrev pub task_arguments : Option Form → String → Option String
task_arguments none args = some args
task_arguments (some f) args = elim (f.cleaned args) [
  | none ↦ none
  | some a ↦ if f.is_json a then some a else none
]

-- The trigger of a row; `ticks` is previous() of a cron expression in the worker's time zone. The
-- columns hold no negative number.
unfoldable pub interval_of : (every phase : Value) → Option IntervalTrigger
unfolding ticks_overflow
interval_of (number (pos every)) (number (pos phase)) =
    if every == 0 || ticks_overflow every phase
    then none
    else some (record { every = every * second; phase = phase * second })
interval_of _ _ = none

abbrev pub ticks_of_parsed :
    (CronExpression → ℕ → Option ℕ) → Parsed CronExpression → Option (ℕ → Option ℕ)
ticks_of_parsed ticks (raised x) = none
ticks_of_parsed ticks (parsed e) = some (ticks e)

abbrev pub ticks_of_interval : Option IntervalTrigger → Option (ℕ → Option ℕ)
ticks_of_interval none = none
ticks_of_interval (some t) = some (previous t)

unfoldable pub trigger_of :
    (ticks : CronExpression → ℕ → Option ℕ) → OxSchedule → Option (ℕ → Option ℕ)
unfolding parse interval_of previous
trigger_of ticks s = elim s.trigger [
  | cron_trigger ↦ ticks_of_parsed ticks (parse s.cron)
  | interval_trigger ↦ ticks_of_interval (interval_of s.every_seconds s.phase_seconds)
  | unknown_trigger ↦ ticks_of_interval (interval_of s.every_seconds s.phase_seconds)
]

-- A bound as the dispatch compares it with its clock: a time, with a zone exactly when USE_TZ is on.
abbrev pub bound_of : (use_tz : Bool) → Bound → Option (Option ℕ)
bound_of use_tz no_bound = some none
bound_of use_tz blank_bound = none
bound_of use_tz not_a_time = none
bound_of use_tz (time at aware) = if differ aware use_tz then none else some (some at)

abbrev pub deadline_of : Value → Option ℕ
deadline_of (number (pos n)) = some (n * second)
deadline_of _ = none

-- The Schedule of a row: a row has its boundary from the start, so it does not anchor.
abbrev pub built :
    Kind
    → (dispatch_key : ℕ → ℕ) → OxSchedule
    → (args : String) → (derive : ℕ → Option ℕ) → (start end : Option ℕ) → Schedule
built kind dispatch_key s args derive start end = record {
  key = dispatch_key s.pk;
  trigger = derive;
  call = kind.call args;
  start_time = start;
  end_time = end;
  starting_deadline = deadline_of s.starting_deadline_seconds;
  anchors = false;
}

-- _to_schedule; none is an exception, for which the row is skipped.
unfoldable pub to_schedule :
    Rules
    → (ticks : CronExpression → ℕ → Option ℕ) → (dispatch_key : ℕ → ℕ) → OxSchedule
    → Option Schedule
unfolding trigger_of
to_schedule r ticks dispatch_key s = do
  kind ← r.kinds s.task_key
  args ← s.arguments
  cleaned ← task_arguments kind.form args
  derive ← trigger_of ticks s
  start ← bound_of r.use_tz s.start_time
  end ← bound_of r.use_tz s.end_time
  some (built kind dispatch_key s cleaned derive start end)
