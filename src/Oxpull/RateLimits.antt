-- ===== src/Oxpull/RateLimits.antt =====
-- src/oxpull/worker.py: one rate limit, as its window row and what each worker knows of it.
-- _read_windows, _roll, _count, _unrecorded and _reopen_what_counts_again treat each name by itself,
-- in statements that are keyed on it; these are their steps for one name.
use django_ox.Prelude.{
  ℕ, ◌+◌, Bool, true, false, ◌&&◌, ◌||◌, not, Option, none, some, List, String, leb, ◌==◌,
  if◌then◌else◌,
}
use django_ox.Worker.{contains}
use django_ox.Store.{OxTask}
pub mod Window

-- One resolved limit; its name is the key of the row below. `per` is in microseconds.
pub record RateLimit : Type 0 where
  pub limit : ℕ
  pub per : ℕ
  pub task_paths : List String
  pub queues : List String

-- RateLimit.covers.
unfoldable pub covers : RateLimit → OxTask → Bool
covers config r = contains config.task_paths r.task_path || contains config.queues r.queue_name

-- OxpullRateWindow. Times are on the database's clock.
pub record RateWindow : Type 0 where
  pub window_id : ℕ
  pub window_started_at : ℕ
  pub used : ℕ

-- What a worker keeps for the name: the window it saw, whether the name is among those that the
-- view blocks, whether the view is stale, whether the limit is closed, and the failures in a row.
pub record RateView : Type 0 where
  pub seen : Option ℕ
  pub blocked : Bool
  pub stale : Bool
  pub closed : Bool
  pub failures : ℕ

abbrev pub max_rate_attempts : ℕ
max_rate_attempts = 5

abbrev pub max_count_failures : ℕ
max_count_failures = 3

-- `ends_at <= db_now`, for the row and the time that the SELECT gave.
unfoldable pub is_over : RateLimit → RateWindow → ℕ → Bool
is_over config row db_now = leb (row.window_started_at + config.per) db_now

-- _roll: the compare-and-set on window_id, judged on the row and the clock of its own statement.
unfoldable pub roll : RateLimit → (window_id now : ℕ) → RateWindow → RateWindow × Bool
unfolding is_over
roll config window_id now row =
    if row.window_id == window_id && is_over config row now
    then (record { window_id = window_id + 1; window_started_at = now; used = 0 }, true)
    else (row, false)

-- The view after the loop of _read_windows, from the window and the count it settled on.
unfoldable pub look : RateLimit → (window_id used : ℕ) → RateView → RateView
look config window_id used view = record view {
  seen = some window_id;
  blocked = leb config.limit used || view.closed;
  stale = false;
}

-- The end of one name's round: with the roll's answer, the new window or the row as it was read.
unfoldable pub settle : RateLimit → (row : RateWindow) → (rolled : Bool) → RateView → RateView
unfolding look
settle config row true view = look config (row.window_id + 1) 0 view
settle config row false view = look config row.window_id row.used view

-- The round from the SELECT's row on: the roll, where it is tried, meets the row as it then is.
unfoldable pub read_window :
    RateLimit
    → (row : RateWindow) → (db_now now : ℕ) → RateWindow
    → RateView
    → RateWindow × RateView
unfolding is_over roll settle
read_window config row db_now now current view =
    if is_over config row db_now
    then (let (after, rolled) = roll config row.window_id now current in
        (after, settle config row rolled view))
    else (current, settle config row false view)

-- The increment of _count: none when it matches no row.
unfoldable pub increment : Option ℕ → RateWindow → Option RateWindow
increment none row = none
increment (some window_id) row =
    if row.window_id == window_id then some (record row { used = row.used + 1 }) else none

-- What _record leaves in the view after an increment that landed.
unfoldable pub counted : RateView → RateView
counted view = record view { failures = 0; stale = true }

-- _unrecorded, and the stale mark of _record.
unfoldable pub unrecorded : RateView → RateView
unrecorded view =
    let failures = view.failures + 1 in
    record view {
      failures = failures;
      closed = view.closed || leb max_count_failures failures;
      stale = true;
    }

-- _reopen_what_counts_again, for a closed limit whose probe does not raise.
unfoldable pub reopen : RateView → RateView
reopen view = record view { closed = false; failures = 0 }

-- A claim may take a covered task: the refresh before it left a view that does not block the name.
abbrev pub may_claim : RateView → Bool
may_claim view = not view.stale && not view.blocked
