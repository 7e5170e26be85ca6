-- ===== src/Schedules/Stored/Validate.antt =====
-- src/django_ox/stored.py: what validate_schedule and _range_errors report of a row.
use django_ox.Prelude.{
  ℕ, Bool, true, false, ◌&&◌, ◌||◌, not, Option, none, some, [], ◌∷◌, ◌++◌, String, leb,
  if◌then◌else◌, any, is_null,
}
use django_ox.Cron.Text.{Text}
use django_ox.Cron.Walk.{CronExpression}
use django_ox.Cron.Parse.{Parsed, raised, parsed, parse}
use django_ox.Schedules.Stored.{
  ℤ, ltℤ, eqℤ, Value, Bound, OxSchedule, Form, Kind, Range, Rules, Column, Errors, error_if,
  number_of, is_missing, is_blank, no_text, pos, missing, blank, other, number, no_bound,
  blank_bound, not_a_time, time, cron_trigger, interval_trigger, unknown_trigger, task_key, trigger,
  cron, every_seconds, phase_seconds, starting_deadline_seconds, start_time, end_time, arguments,
  not_registered, needs_cron, bad_cron, has_interval, needs_interval, below_one_second,
  phase_too_long, has_cron, unknown_kind_of_trigger, deadline_below_one, without_zone, with_zone,
  outside_storable_years, ends_first, not_a_mapping, form_refuses, not_json, below_range,
  above_range, too_long, empty,
}

-- The rules of a cron schedule.
abbrev pub expression_errors : Text → Parsed CronExpression → Errors
expression_errors [] p = (cron, needs_cron) ∷ []
expression_errors (c ∷ cs) (parsed e) = []
expression_errors (c ∷ cs) (raised x) = (cron, bad_cron) ∷ []

-- The rules of an interval.
abbrev pub phase_errors : ℤ → Option ℤ → Errors
phase_errors every none = []
phase_errors every (some phase) = error_if (not (ltℤ phase every)) phase_seconds phase_too_long

unfoldable pub interval_errors : (every phase : Value) → Errors
interval_errors missing phase = (every_seconds, needs_interval) ∷ []
interval_errors blank phase = []
interval_errors other phase = []
interval_errors (number n) phase =
    if ltℤ n (pos 1)
    then (every_seconds, below_one_second) ∷ []
    else phase_errors n (number_of phase)

unfoldable pub trigger_errors : OxSchedule → Errors
unfolding interval_errors parse
trigger_errors s = elim s.trigger [
  | cron_trigger ↦
      expression_errors s.cron (parse s.cron)
      ++ error_if (not (is_missing s.every_seconds)) every_seconds has_interval
  | interval_trigger ↦
      interval_errors s.every_seconds s.phase_seconds
      ++ error_if (not (no_text s.cron)) cron has_cron
  | unknown_trigger ↦ (trigger, unknown_kind_of_trigger) ∷ []
]

abbrev pub deadline_errors : Option ℤ → Errors
deadline_errors none = []
deadline_errors (some n) = error_if (ltℤ n (pos 1)) starting_deadline_seconds deadline_below_one

abbrev pub is_column : Column → Column → Bool
is_column task_key task_key = true
is_column trigger trigger = true
is_column cron cron = true
is_column every_seconds every_seconds = true
is_column phase_seconds phase_seconds = true
is_column starting_deadline_seconds starting_deadline_seconds = true
is_column start_time start_time = true
is_column end_time end_time = true
is_column arguments arguments = true
is_column _ _ = false

abbrev pub has_error : Column → Errors → Bool
has_error c es = any (λ e. is_column c e.0) es

abbrev pub differ : Bool → Bool → Bool
differ a b = (a && not b) || (not a && b)

-- A time with a zone beside one without: reported against the one that USE_TZ does not expect.
unfoldable pub zone_errors : (use_tz : Bool) → (start end : Bound) → Errors
zone_errors use_tz (time a w) (time b v) =
    if differ w v
    then (
      (if differ v use_tz then end_time else start_time),
      (if use_tz then without_zone else with_zone),
    )
      ∷ []
    else []
zone_errors use_tz _ _ = []

-- A time on its own, as the database will hold it.
unfoldable pub bound_errors : Rules → Column → Bound → (found : Errors) → Errors
bound_errors r c (time at aware) found =
    if has_error c found
    then []
    else if not r.use_tz && aware
    then (c, with_zone) ∷ []
    else error_if (r.use_tz && r.overflows at aware) c outside_storable_years
bound_errors r c _ found = []

abbrev pub ends_by : Bound → Bound → Bool
ends_by (time a w) (time b v) = leb b a
ends_by _ _ = false

unfoldable pub time_errors : Rules → (start end : Bound) → Errors
unfolding zone_errors bound_errors
time_errors r start end =
    let z = zone_errors r.use_tz start end in
    let es = z ++ bound_errors r start_time start z ++ bound_errors r end_time end z in
    if not (has_error start_time es) && not (has_error end_time es) && ends_by start end
    then es ++ (end_time, ends_first) ∷ []
    else es

-- The form cleans the arguments, and what it cleans to is JSON.
abbrev pub form_errors : Option Form → String → Errors
form_errors none args = []
form_errors (some f) args = elim (f.cleaned args) [
  | none ↦ (arguments, form_refuses) ∷ []
  | some a ↦ error_if (not (f.is_json a)) arguments not_json
]

unfoldable pub argument_errors : Option Kind → Option String → Errors
argument_errors kind none = (arguments, not_a_mapping) ∷ []
argument_errors none (some args) = []
argument_errors (some k) (some args) = form_errors k.form args

abbrev pub is_bound : Option ℤ → ℤ → Bool
is_bound none n = false
is_bound (some m) n = eqℤ m n

-- A bound that the field holds already is its own cleaning's to report.
abbrev pub low_errors : Range → Range → Column → ℤ → Errors
low_errors destination held c n = elim destination.low [
  | none ↦ []
  | some l ↦ if is_bound held.low l then [] else error_if (ltℤ n l) c below_range
]

abbrev pub high_errors : Range → Range → Column → ℤ → Errors
high_errors destination held c n = elim destination.high [
  | none ↦ []
  | some h ↦ if is_bound held.high h then [] else error_if (ltℤ h n) c above_range
]

abbrev pub is_above : Option ℤ → ℤ → Bool
is_above none n = true
is_above (some l) n = not (ltℤ n l)

abbrev pub is_below : Option ℤ → ℤ → Bool
is_below none n = true
is_below (some h) n = not (ltℤ h n)

-- field.run_validators: what the field's own cleaning lets through.
abbrev pub is_within : Range → ℤ → Bool
is_within held n = is_above held.low n && is_below held.high n

abbrev pub no_errors : Errors → Bool
no_errors [] = true
no_errors (e ∷ es) = false

-- _LONGEST_INTERVAL_SECONDS and _LONGEST_SECONDS.
abbrev pub longest_interval : ℕ
longest_interval = 62135596800

abbrev pub longest_seconds : ℕ
longest_seconds = 86399999999999

-- One column of _range_errors.
unfoldable pub column_errors : Rules → Column → (longest : ℕ) → Value → Errors
column_errors r c longest v = elim (number_of v) [
  | none ↦ []
  | some n ↦
      let es = low_errors r.destination r.held c n ++ high_errors r.destination r.held c n in
      if not (ltℤ (pos longest) n) || not (no_errors es)
      then es
      else es ++ error_if (is_within r.held n) c too_long
]

unfoldable pub range_errors : Rules → OxSchedule → Errors
unfolding column_errors
range_errors r s =
    column_errors r every_seconds longest_interval s.every_seconds
    ++ (column_errors r phase_seconds longest_seconds s.phase_seconds
        ++ column_errors r starting_deadline_seconds longest_seconds s.starting_deadline_seconds)

abbrev pub blank_error : Bool → Column → Errors → Errors
blank_error is_empty c found = if is_empty && not (has_error c found) then (c, empty) ∷ [] else []

abbrev pub is_blank_bound : Bound → Bool
is_blank_bound no_bound = false
is_blank_bound blank_bound = true
is_blank_bound not_a_time = false
is_blank_bound (time at aware) = false

abbrev pub key_errors : Rules → OxSchedule → Errors
key_errors r s =
    error_if (r.registry_decides && is_null (r.kinds s.task_key)) task_key not_registered

-- What validate_schedule finds: the ranges first, then the rules.
unfoldable pub found_errors : Rules → OxSchedule → Errors
unfolding trigger_errors time_errors argument_errors range_errors
found_errors r s =
    range_errors r s
    ++ (key_errors r s
        ++ (trigger_errors s
            ++ (deadline_errors (number_of s.starting_deadline_seconds)
                ++ (time_errors r s.start_time s.end_time
                    ++ argument_errors (r.kinds s.task_key) s.arguments))))

abbrev pub blank_errors : OxSchedule → (found : Errors) → Errors
blank_errors s found =
    blank_error (is_blank s.every_seconds) every_seconds found
    ++ (blank_error (is_blank s.starting_deadline_seconds) starting_deadline_seconds found
        ++ blank_error (is_blank_bound s.end_time) end_time found)

-- validate_schedule; no error is that it returns.
unfoldable pub validate_schedule : Rules → OxSchedule → Errors
unfolding found_errors
validate_schedule r s = let found = found_errors r s in found ++ blank_errors s found
