-- ===== src/Examples/Schedules.antt =====
-- A schedule every ten seconds, dispatched by two workers.
use django_ox.Prelude.{
  ℕ, ◌+◌, ◌*◌, ◌/◌, ◌≡◌, refl, Bool, true, false, Option, none, some, [], ◌∷◌, arith, In, inl, ◌==◌,
}
use django_ox.Waiting.{Call}
use django_ox.Schedules.{
  IntervalTrigger, interval_epoch, previous, Schedule, Log, TickRead, absent, at, has_tick,
  delete_tasks, delete_ticks,
}
use django_ox.Schedules.Dispatch.{
  fired, tick_row, still_due, is_wanted, fire, admit, transact, dispatch_one,
}
use django_ox.Schedules.Dispatch.Cases.{Pass, dispatch, tick_of, IsIdle}
use django_ox.Schedules.Dispatch.Once.{UniqueTicks, Moves-UniqueTicks, fires_once}
use django_ox.Schedules.Dispatch.Once
use django_ox.Schedules.Dispatch.Due.{IsDue, fires_in_time}
use django_ox.Schedules.Dispatch.Placed.{IsAnchored}
use django_ox.Schedules.Dispatch.Anchor.{anchors_first}
use django_ox.Schedules.Dispatch.Anchor
use django_ox.Examples.{a_call}

abbrev every_ten : IntervalTrigger
every_ten = record { every = 10000000; phase = 3000000 }

-- Before the first tick of the epoch, one interval is stepped back.
steps_back : previous every_ten (interval_epoch + 1000000) ≡ some (62135596793 * 1000000)
unfolding previous
steps_back = refl

-- A trigger that answers the tens of its clock, and a clock in the same units.
abbrev tens : ℕ → Option ℕ
tens n = some (n / 10 * 10)

abbrev same : ℕ → ℕ
same n = n

abbrev ten_seconds : Schedule
ten_seconds = record {
  key = 1;
  trigger = tens;
  call = a_call;
  start_time = some 100;
  end_time = none;
  starting_deadline = some 5;
  anchors = false;
}

abbrev settings_schedule : Schedule
settings_schedule = record ten_seconds { start_time = none; anchors = true }

abbrev takes_all : Call → Bool
takes_all c = true

abbrev empty_log : Log
empty_log = record { ticks = []; tasks = [] }

abbrev pass_at : (id now : ℕ) → Schedule → TickRead → Pass
pass_at id now s read = record {
  accepts = takes_all;
  id = id;
  local_now = now;
  now = now;
  admitted_at = now;
  snapshot = s;
  current = some s;
  scheduled_for = now / 10 * 10;
  read = read;
}

first_fires : (dispatch same (pass_at 40 123 ten_seconds absent) empty_log).1 ≡ fired 40
unfolding dispatch_one transact admit fire is_wanted still_due has_tick
first_fires = refl

-- The second worker has read the log before the first committed.
-- Another schedule's ticks are pruned after it, and then its task is.
fires_once_example :
    let l = (dispatch same (pass_at 40 123 ten_seconds absent) empty_log).0 in
    let m = delete_tasks (λ id. id == 40) (delete_ticks (λ key t. key == 2) l) in
    In (tick_of (pass_at 40 123 ten_seconds absent) ten_seconds none) m.ticks
    × IsIdle m (dispatch same (pass_at 41 124 ten_seconds absent) m)
fires_once_example =
    fires_once same (pass_at 40 123 ten_seconds absent) (pass_at 41 124 ten_seconds absent)
      ten_seconds ten_seconds 40 empty_log _ refl first_fires
      (Once.on (Once.on Once.start (Once.prunes (λ key t. key == 2)))
        (Once.deletes (λ id. id == 40)))
      ((tt, refl), refl) refl refl refl

fires_in_time_example : IsDue same ten_seconds 120 123 123
fires_in_time_example =
    fires_in_time same (pass_at 40 123 ten_seconds absent) ten_seconds 40 empty_log refl first_fires

anchors_first_example :
    IsAnchored
      (λ id. id == 40)
      1
      (delete_tasks
        (λ id. id == 40)
        (dispatch same (pass_at 40 123 settings_schedule absent) empty_log).0).ticks
anchors_first_example =
    anchors_first (λ id. false) (inl tt)
      (Anchor.on
        (Anchor.on Anchor.start (
          Anchor.dispatches (pass_at 40 123 settings_schedule absent)
            (λ c e k. (ground arith, λ last h. cc))))
        (Anchor.deletes (λ id. id == 40)))

-- The anchor of a worker whose clock is ahead: a pass that reads it lets an earlier tick fire.
abbrev anchored_ahead : Log
anchored_ahead = record { ticks = tick_row 1 200 none ∷ []; tasks = [] }

fires_before_anchor_read :
    (dispatch same (pass_at 40 123 settings_schedule (at 200)) anchored_ahead).1 ≡ fired 40
unfolding dispatch_one transact admit fire is_wanted still_due has_tick
fires_before_anchor_read = refl
