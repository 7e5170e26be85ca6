-- ===== src/Schedules/Dispatch.antt =====
-- src/django_ox/worker.py: Worker.dispatch_schedules. One transaction per schedule, of any worker, on
-- the log as it then stands; the unique constraint on (schedule_name, scheduled_for) decides between
-- workers. Two that find no history for one key run one after the other, which is what the latch of
-- _anchor_boundary is for. A database failure rolls the transaction back.
use django_ox.Prelude.{
  ℕ, ◌+◌, ◌-◌, Bool, true, false, ◌&&◌, not, Option, none, some, [], ◌∷◌, ◌++◌, ltb, leb, ◌==◌,
  if◌then◌else◌, is_null,
}
use django_ox.Waiting.{Call, backend_enqueue}
use django_ox.Schedules.{
  Schedule, OxScheduleTick, Ticks, Log, has_tick, TickRead, absent, unreadable, at, earliest_tick,
}
pub mod Sweep
pub mod Cases
pub mod Once
pub mod Count
pub mod Due
pub mod Placed
pub mod Anchor

-- Python's comparisons with a bound that may be None.
abbrev pub is_before : ℕ → Option ℕ → Bool
is_before t none = false
is_before t (some start) = ltb t start

abbrev pub is_after : ℕ → Option ℕ → Bool
is_after t none = false
is_after t (some end_) = ltb end_ t

-- `now - scheduled_for > starting_deadline`, which is false for an instant ahead of the clock.
abbrev pub is_late : (now t : ℕ) → Option ℕ → Bool
is_late now t none = false
is_late now t (some deadline) = ltb deadline (now - t)

-- `clock` is make_aware, the tick of a wall clock as an instant.
module _ (clock : ℕ → ℕ) where
  -- The first loop: the instant of the latest tick, unless it is still ahead.
  unfoldable pub due : Schedule → (local_now now : ℕ) → Option ℕ
  due s local_now now = elim (s.trigger local_now) [
    | none ↦ none
    | some tick ↦ if ltb now (clock tick) then none else some (clock tick)
  ]

  -- _still_due.
  unfoldable pub still_due : (current : Schedule) → (scheduled_for local_now now : ℕ) → Bool
  still_due current scheduled_for local_now now = elim (current.trigger local_now) [
    | none ↦ false
    | some tick ↦
        if not (clock tick == scheduled_for)
        then false
        else if is_before scheduled_for current.start_time
        then false
        else if is_after scheduled_for current.end_time
        then false
        else not (is_late now scheduled_for current.starting_deadline)
  ]

-- What became of one schedule in a pass.
pub data Dispatched : Type 0 where
  skipped dropped not_admitted tick_unreadable lost_race failed_ : Dispatched
  anchored : Dispatched
  fired : (task_id : ℕ) → Dispatched

abbrev pub last_of : TickRead → Option ℕ
last_of absent = none
last_of unreadable = none
last_of (at t) = some t

abbrev pub is_unreadable : TickRead → Bool
is_unreadable absent = false
is_unreadable unreadable = true
is_unreadable (at t) = false

-- `last is not None and scheduled_for <= last and last <= now`, and the same without the clock.
abbrev pub is_covered : Option ℕ → (scheduled_for now : ℕ) → Bool
is_covered none scheduled_for now = false
is_covered (some last) scheduled_for now = leb scheduled_for last && leb last now

abbrev pub is_behind : Option ℕ → ℕ → Bool
is_behind none scheduled_for = false
is_behind (some last) scheduled_for = leb scheduled_for last

-- The filters of the second loop, on the snapshot and the read before it.
unfoldable pub is_wanted : Schedule → (scheduled_for now : ℕ) → TickRead → Bool
is_wanted s scheduled_for now read =
    if is_before scheduled_for s.start_time
    then false
    else if is_after scheduled_for s.end_time
    then false
    else if is_unreadable read
    then false
    else not (is_covered (last_of read) scheduled_for now)

abbrev pub tick_row : (key scheduled_for : ℕ) → Option ℕ → OxScheduleTick
tick_row key scheduled_for task = record {
  schedule_name = key;
  scheduled_for = scheduled_for;
  task_id = task;
  reads = true;
}

-- The INSERT of an anchor, and of a tick with its task; an enqueue that raises takes the tick with it.
unfoldable pub anchor_at : Schedule → ℕ → Log → Log × Dispatched
anchor_at c scheduled_for l =
    (record l { ticks = l.ticks ++ tick_row c.key scheduled_for none ∷ [] }, anchored)

unfoldable pub fire : (accepts : Call → Bool) → (id now : ℕ) → Schedule → ℕ → Log → Log × Dispatched
fire accepts id now c scheduled_for l =
    if accepts c.call
    then (
      record {
        ticks = l.ticks ++ tick_row c.key scheduled_for (some id) ∷ [];
        tasks = backend_enqueue id c.call now l.tasks;
      },
      fired id,
    )
    else (l, failed_)

-- _anchor_boundary, by the time it holds the latch: the latch itself is deleted again.
abbrev pub anchor_boundary : (key : ℕ) → Ticks → TickRead
anchor_boundary key t = earliest_tick key t

-- The first sighting is told from the log itself, where the read before found nothing.
unfoldable pub admit :
    (accepts : Call → Bool)
    → (id now : ℕ) → Schedule
    → ℕ
    → (last : Option ℕ) → Log
    → Log × Dispatched
admit accepts id now c scheduled_for last l =
    if is_null last && c.anchors
    then elim (anchor_boundary c.key l.ticks) [
      | absent ↦ anchor_at c scheduled_for l
      | unreadable ↦ (l, tick_unreadable)
      | at anchor ↦
          if ltb scheduled_for anchor
          then (l, not_admitted)
          else fire accepts id now c scheduled_for l
    ]
    else fire accepts id now c scheduled_for l

module _ (clock : ℕ → ℕ) where
  -- The transaction: the definition as it now stands, its own tick, the INSERT.
  unfoldable pub transact :
      (accepts : Call → Bool)
      → (id local_now now admitted_at : ℕ) → (current : Option Schedule) → ℕ
      → (last : Option ℕ) → Log
      → Log × Dispatched
  transact accepts id local_now now admitted_at none scheduled_for last l = (l, not_admitted)
  transact accepts id local_now now admitted_at (some c) scheduled_for last l =
      if not (still_due clock c scheduled_for local_now admitted_at)
      then (l, not_admitted)
      else if has_tick c.key scheduled_for l.ticks
      then (l, lost_race)
      else admit accepts id now c scheduled_for last l

  -- One schedule of a pass: `s` and `read` are the snapshot's, `current` and `l` are of the
  -- transaction.
  unfoldable pub dispatch_one :
      (accepts : Call → Bool)
      → (id local_now now admitted_at : ℕ) → Schedule
      → (current : Option Schedule) → ℕ
      → TickRead
      → Log
      → Log × Dispatched
  dispatch_one accepts id local_now now admitted_at s current scheduled_for read l =
      if not (is_wanted s scheduled_for now read)
      then (l, skipped)
      else if is_behind (last_of read) scheduled_for && has_tick s.key scheduled_for l.ticks
      then (l, skipped)
      else if is_late now scheduled_for s.starting_deadline
      then (l, dropped)
      else transact accepts id local_now now admitted_at current scheduled_for (last_of read) l
