-- ===== src/Oxpull/Concurrency.antt =====
-- src/oxpull/concurrency.py and OxpullWorker._read_running: one concurrency limit, as what a worker
-- knows of it and the count that it reads off the task table.
use django_ox.Prelude.{ℕ, Bool, true, false, ◌&&◌, ◌||◌, List, String, ltb, leb, if◌then◌else◌}
use django_ox.Worker.{contains}
use django_ox.Store.{OxTask, Table, running, status_eq, matched}
pub mod Quiet
pub mod Turns
pub mod Slots

pub record ConcurrencyLimit : Type 0 where
  pub max : ℕ
  pub task_paths : List String
  pub queues : List String

-- ConcurrencyLimit.covers, and covered_q, which is the same condition on a row.
unfoldable pub covers : ConcurrencyLimit → OxTask → Bool
covers limit r = contains limit.task_paths r.task_path || contains limit.queues r.queue_name

abbrev pub is_counted : ConcurrencyLimit → OxTask → Bool
is_counted limit r = status_eq r.status running && covers limit r

-- The aggregate of _read_running.
unfoldable pub running_count : ConcurrencyLimit → Table → ℕ
running_count limit t = matched (is_counted limit) t

-- _concurrency_blocked for the name, and _concurrency_stale.
pub record ConcurrencyView : Type 0 where
  pub blocked : Bool
  pub stale : Bool

-- A limit of zero blocks without a count.
unfoldable pub is_blocked : ConcurrencyLimit → Table → Bool
unfolding running_count
is_blocked limit t = if ltb 0 limit.max then leb limit.max (running_count limit t) else true

-- _read_running clears the mark first, and then counts.
abbrev pub begin_read : ConcurrencyView → ConcurrencyView
begin_read view = record view { stale = false }

unfoldable pub finish_read : ConcurrencyLimit → Table → ConcurrencyView → ConcurrencyView
unfolding is_blocked
finish_read limit t view = record view { blocked = is_blocked limit t }

-- What _record, an outcome, a reap that took rows back, and a count that raised all leave.
abbrev pub mark_stale : ConcurrencyView → ConcurrencyView
mark_stale view = record view { stale = true }
