-- ===== src/Schedules/Stored/Accepted.antt =====
-- A row that validate_schedule accepts becomes a schedule that dispatch can plan.
use native.Mathlib.Nat.{mul-le-mul_right}
use django_ox.Prelude.{
  ℕ, ◌≤◌, ◌<◌, ◌≡◌, refl, inl, inr, Bool-cases, Option-cases, Bool, true, false, not, Option, some,
  none, List, [], ◌∷◌, ◌++◌, String, ltb, ◌==◌, arith,
}
use django_ox.Cron.Walk.{CronExpression}
use django_ox.Schedules.{interval_epoch, previous, Schedule}
use django_ox.Schedules.Interval.{IsLatestTick, previous_is_latest}
use django_ox.Schedules.Stored.{
  pos, Rules, OxSchedule, Kind, Form, every_seconds, phase_seconds, starting_deadline_seconds, cron,
  has_cron, no_text, number, number_of, Bound, interval_trigger, error_if,
}
use django_ox.Schedules.Stored.Validate.{
  longest_interval, key_errors, found_errors, blank_errors, longest_seconds, column_errors,
  low_errors, high_errors, no_errors, is_within, interval_errors, trigger_errors, argument_errors,
  form_errors, range_errors, validate_schedule, deadline_errors, time_errors,
}
use django_ox.Schedules.Stored.Build.{
  ticks_overflow, task_arguments, interval_of, trigger_of, bound_of, built, to_schedule,
}
use django_ox.Schedules.Stored.Overflow.{rounded_up, interval_in_seconds}

both_empty {ℓ} : {A : Type ℓ} (xs ys : List A) → (xs ++ ys) ≡ [] → (xs ≡ []) × (ys ≡ [])
both_empty [] ys h = (refl, h)
both_empty (x ∷ xs) ys h = absurd cc

-- No interval past MAX_INTERVAL, of those that the field itself takes.
within_longest :
    (r : Rules) (e : ℕ)
    → is_within r.held (pos e) ≡ true
    → column_errors r every_seconds longest_interval (number (pos e)) ≡ []
    → e ≤ longest_interval
unfolding column_errors
within_longest r e w h =
    let es =
      low_errors r.destination r.held every_seconds (pos e)
      ++ high_errors r.destination r.held every_seconds (pos e) in
    elim (Bool-cases (ltb longest_interval e)) [
      | inr q ↦ ground arith
      | inl q ↦ elim (Bool-cases (no_errors es)) [
        | inr n ↦
            absurd
              (let x : es ≡ [] = rw (q, n) at h in let y : no_errors [] ≡ false = rw x at n in cc)
        | inl n ↦ absurd (let x = rw (q, n, w) at h in let y = (both_empty es _ x).1 in cc)
      ]
    ]

-- An interval of at least a second, and a phase under it.
interval_rules :
    (e p : ℕ) → interval_errors (number (pos e)) (number (pos p)) ≡ [] → (0 < e) × (p < e)
unfolding interval_errors
interval_rules e p h = elim (Bool-cases (ltb e 1)) [
  | inl q ↦ absurd (let x = rw q at h in cc)
  | inr q ↦ elim (Bool-cases (ltb p e)) [
    | inl l ↦ (ground arith, ground arith)
    | inr l ↦ absurd (let x = rw (q, l) at h in cc)
  ]
]

form_takes :
    (f : Option Form) (args : String)
    → form_errors f args ≡ []
    → (a : String) × (task_arguments f args ≡ some a)
form_takes none args h = (args, refl)
form_takes (some f) args h = elim (Option-cases (f.cleaned args)) [
  | inl e ↦ absurd (let x = rw e at h in cc)
  | inr (a, e) ↦ elim (Bool-cases (f.is_json a)) [
    | inl j ↦ (a, rw (e, j) refl)
    | inr j ↦ absurd (let x = rw (e, j) at h in cc)
  ]
]

passes_overflow : (e p : ℕ) → 0 < e → p < e → e ≤ longest_interval → ticks_overflow e p ≡ false
unfolding ticks_overflow
passes_overflow e p z l m =
    let one = rounded_up p e 1 z (omega arith) in let short = mul-le-mul_right e one in ground arith

-- What the rules say of an accepted row, part by part.
accepted_parts :
    (r : Rules) (s : OxSchedule)
    → validate_schedule r s ≡ []
    → (range_errors r s ≡ [])
      × (key_errors r s ≡ [])
      × (trigger_errors s ≡ [])
      × (argument_errors (r.kinds s.task_key) s.arguments ≡ [])
unfolding validate_schedule found_errors
accepted_parts r s h =
    let args = argument_errors (r.kinds s.task_key) s.arguments in
    let times = time_errors r s.start_time s.end_time in
    let deadline = deadline_errors (number_of s.starting_deadline_seconds) in
    let rest = deadline ++ (times ++ args) in
    let found = both_empty (found_errors r s) (blank_errors s (found_errors r s)) h in
    let h1 = both_empty (range_errors r s) (key_errors r s ++ (trigger_errors s ++ rest)) found.0 in
    let h2 = both_empty (key_errors r s) (trigger_errors s ++ rest) h1.1 in
    let h3 = both_empty (trigger_errors s) rest h2.1 in
    let h4 = both_empty deadline (times ++ args) h3.1 in
    (h1.0, h2.0, h3.0, (both_empty times args h4.1).1)

-- The kind of an accepted row, and what reaches its task.
accepted_call :
    (r : Rules) (s : OxSchedule)
    → r.registry_decides ≡ true
    → validate_schedule r s ≡ []
    → (k : Kind) × (a : String) × (c : String) × (r.kinds s.task_key ≡ some k)
      × (s.arguments ≡ some a)
      × (task_arguments k.form a ≡ some c)
unfolding argument_errors
accepted_call r s d h =
    let (range, known, triggered, args) = accepted_parts r s h in
    elim (Option-cases (r.kinds s.task_key)) [
      | inl e ↦ absurd (let x = rw (d, e) at known in cc)
      | inr (k, e) ↦ elim (Option-cases s.arguments) [
        | inl q ↦ absurd (let x = rw (e, q) at args in cc)
        | inr (a, q) ↦ let (c, t) = form_takes k.form a (rw (e, q) at args) in (k, a, c, e, q, t)
      ]
    ]

-- A bound as the database hands it back: none, or a time that has a zone exactly under USE_TZ.
abbrev pub IsReadBack : (use_tz : Bool) → Bound → Type 0
IsReadBack use_tz b = (o : Option ℕ) × (bound_of use_tz b ≡ some o)

built_from :
    (r : Rules) (ticks : CronExpression → ℕ → Option ℕ) (dispatch_key : ℕ → ℕ) (s : OxSchedule)
    → (k : Kind) (a c : String) (derive : ℕ → Option ℕ) (start end : Option ℕ)
    → r.kinds s.task_key ≡ some k
    → s.arguments ≡ some a
    → task_arguments k.form a ≡ some c
    → trigger_of ticks s ≡ some derive
    → bound_of r.use_tz s.start_time ≡ some start
    → bound_of r.use_tz s.end_time ≡ some end
    → to_schedule r ticks dispatch_key s ≡ some (built k dispatch_key s c derive start end)
unfolding to_schedule
built_from r ticks dispatch_key s k a c derive start end e1 e2 e3 e4 b1 b2 =
    rw (e1, e2, e3, e4, b1, b2) refl

-- If validate_schedule accepts an interval row, with the registry in force, numbers that the fields' own
-- cleaning takes and bounds as the database hands them back: the worker makes a schedule of it, and at
-- any clock from the epoch on that schedule derives a tick without an overflow, the latest one.
pub accepted_interval_plans :
    (r : Rules) (ticks : CronExpression → ℕ → Option ℕ) (dispatch_key : ℕ → ℕ) (s : OxSchedule)
    → (e p dt : ℕ) → r.registry_decides ≡ true
    → s.trigger ≡ interval_trigger
    → s.every_seconds ≡ number (pos e)
    → s.phase_seconds ≡ number (pos p)
    → is_within r.held (pos e) ≡ true
    → IsReadBack r.use_tz s.start_time
    → IsReadBack r.use_tz s.end_time
    → validate_schedule r s ≡ []
    → interval_epoch ≤ dt
    → (d : Schedule) × (to_schedule r ticks dispatch_key s ≡ some d)
      × ((tick : ℕ) × (d.trigger dt ≡ some tick) × IsLatestTick (interval_in_seconds e p) dt tick)
unfolding trigger_of interval_of trigger_errors range_errors
accepted_interval_plans r ticks dispatch_key s e p dt f i v w held (start, b1) (end, b2) h l =
    let (range, known, triggered, args) = accepted_parts r s h in
    let (k, a, c, e1, e2, e3) = accepted_call r s f h in
    let phase_errors_ =
      column_errors r phase_seconds longest_seconds s.phase_seconds
      ++ column_errors r starting_deadline_seconds longest_seconds s.starting_deadline_seconds in
    let every_ok =
      (both_empty (column_errors r every_seconds longest_interval s.every_seconds) phase_errors_
        range).0 in
    let most = within_longest r e held (rw v at every_ok) in
    let rules : interval_errors s.every_seconds s.phase_seconds ≡ [] =
      (both_empty (interval_errors s.every_seconds s.phase_seconds)
        (error_if (not (no_text s.cron)) cron has_cron) (rw i at triggered)).0 in
    let (z, u) = interval_rules e p (rw (v, w) at rules) in
    let fits = passes_overflow e p z u most in
    let nonzero : (e == 0) ≡ false = ground arith in
    let derive : trigger_of ticks s ≡ some (previous (interval_in_seconds e p)) =
      rw (i, v, w, nonzero, fits) refl in
    let (tick, t, latest) =
      previous_is_latest (interval_in_seconds e p) dt (omega arith) (omega arith) (omega arith) l in
    let planned = previous (interval_in_seconds e p) in
    (
      built k dispatch_key s c planned start end,
      built_from r ticks dispatch_key s k a c planned start end e1 e2 e3 derive b1 b2,
      (tick, t, latest),
    )
