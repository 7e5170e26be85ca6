-- ===== src/Schedules.antt =====
-- src/django_ox/schedules.py: when a schedule is due, and the log of its ticks.
use django_ox.Prelude.{
  ℕ, ◌+◌, ◌-◌, ◌*◌, ◌/◌, Bool, ◌&&◌, Option, none, some, List, [], ◌∷◌, ltb, leb, ◌==◌,
  if◌then◌else◌, any, map, select, not,
}
use django_ox.Store.{Table}
use django_ox.Waiting.{Call}
pub mod Interval
pub mod Earliest
pub mod Dispatch
pub mod Stored

-- _INTERVAL_EPOCH, in microseconds from datetime.min: MAX_INTERVAL is the same number.
abbrev pub interval_epoch : ℕ
interval_epoch = 62135596800 * 1000000

-- IntervalTrigger, its timedeltas in microseconds.
pub record IntervalTrigger : Type 0 where
  pub every : ℕ
  pub phase : ℕ

-- IntervalTrigger.previous; none is the OverflowError of an instant before datetime.min. Python's //
-- rounds down, so before the first tick of the epoch it steps back by whole intervals, rounded up.
unfoldable pub previous : IntervalTrigger → ℕ → Option ℕ
previous t dt =
    if leb (interval_epoch + t.phase) dt
    then some (interval_epoch + (dt - (interval_epoch + t.phase)) / t.every * t.every + t.phase)
    else (let back = (interval_epoch + t.phase - dt + (t.every - 1)) / t.every * t.every in
        if ltb interval_epoch back then none else some (interval_epoch - back + t.phase))

-- Schedule. `key` is the dispatch key, a number for each name that the tick log's unique constraint
-- holds apart; `trigger` is previous(), none where it has no tick or raises.
pub record Schedule : Type 0 where
  pub key : ℕ
  pub trigger : ℕ → Option ℕ
  pub call : Call
  pub start_time : Option ℕ
  pub end_time : Option ℕ
  pub starting_deadline : Option ℕ
  pub anchors : Bool

-- OxScheduleTick; an anchor has no task. A stored instant that does not read still has its place in
-- the column's order.
pub record OxScheduleTick : Type 0 where
  pub schedule_name : ℕ
  pub scheduled_for : ℕ
  pub task_id : Option ℕ
  pub reads : Bool

abbrev pub Ticks : Type 0
Ticks = List OxScheduleTick

-- What the dispatch transactions write.
pub record Log : Type 0 where
  pub ticks : Ticks
  pub tasks : Table

-- on_delete=SET_NULL of OxScheduleTick.task, for tasks that are gone.
abbrev pub cleared : (gone : ℕ → Bool) → Option ℕ → Option ℕ
cleared gone none = none
cleared gone (some id) = if gone id then none else some id

abbrev pub set_null : (gone : ℕ → Bool) → OxScheduleTick → OxScheduleTick
set_null gone r = record r { task_id = cleared gone r.task_id }

-- A DELETE of task rows, and one of tick rows, as ox_prune makes them.
abbrev pub delete_tasks : (gone : ℕ → Bool) → Log → Log
delete_tasks gone l = record {
  ticks = map (set_null gone) l.ticks;
  tasks = select (λ r. not (gone r.id)) l.tasks;
}

abbrev pub delete_ticks : (is_old : ℕ → ℕ → Bool) → Log → Log
delete_ticks is_old l = record l {
  ticks = select (λ r. not (is_old r.schedule_name r.scheduled_for)) l.ticks;
}

abbrev pub is_tick : ℕ → ℕ → OxScheduleTick → Bool
is_tick key at r = r.schedule_name == key && r.scheduled_for == at

unfoldable pub has_tick : ℕ → ℕ → Ticks → Bool
has_tick key at t = any (is_tick key at) t

-- TickRead.
pub data TickRead : Type 0 where
  absent unreadable : TickRead
  at : ℕ → TickRead

abbrev pub tick_read : Option OxScheduleTick → TickRead
tick_read none = absent
tick_read (some r) = if r.reads then at r.scheduled_for else unreadable

abbrev pub earlier : OxScheduleTick → Option OxScheduleTick → OxScheduleTick
earlier r none = r
earlier r (some x) = if leb r.scheduled_for x.scheduled_for then r else x

abbrev pub later : OxScheduleTick → Option OxScheduleTick → OxScheduleTick
later r none = r
later r (some x) = if leb x.scheduled_for r.scheduled_for then r else x

-- The first row of a key in the order of `scheduled_for`.
unfoldable pub earliest : ℕ → Ticks → Option OxScheduleTick
earliest key [] = none
earliest key (r ∷ t) =
    let rest = earliest key t in if r.schedule_name == key then some (earlier r rest) else rest

-- The last one at or after `since`.
unfoldable pub newest : ℕ → ℕ → Ticks → Option OxScheduleTick
newest key since [] = none
newest key since (r ∷ t) =
    let rest = newest key since t in
    if r.schedule_name == key && leb since r.scheduled_for then some (later r rest) else rest

-- earliest_tick and latest_ticks.
unfoldable pub earliest_tick : ℕ → Ticks → TickRead
earliest_tick key t = tick_read (earliest key t)

unfoldable pub latest_tick : ℕ → ℕ → Ticks → TickRead
latest_tick key since t = tick_read (newest key since t)
