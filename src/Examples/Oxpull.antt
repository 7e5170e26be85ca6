-- ===== src/Examples/Oxpull.antt =====
-- A rate limit and a concurrency limit with one worker each, and a batch of two tasks.
use django_ox.Prelude.{
  ◌+◌, ◌≤◌, ◌≡◌, refl, Bool, true, false, none, some, [], ◌∷◌, length, arith, All,
}
use django_ox.Store.{OxTask, Table, successful, matched, update}
use django_ox.Waiting.{Call}
use django_ox.Oxpull.RateLimits.{RateLimit, RateView, RateWindow, increment, counted, read_window}
use django_ox.Oxpull.RateLimits.Window.{
  Fleet, Reach, start, on, turn, select, take_in, claim, count, resting, window_bound,
}
use django_ox.Oxpull.Concurrency.{
  ConcurrencyLimit, ConcurrencyView, running_count, covers, mark_stale, begin_read, finish_read,
}
use django_ox.Oxpull.Concurrency.Slots
use django_ox.Oxpull.Concurrency.Turns
use django_ox.Oxpull.Batches.{
  Batch, BatchRow, complete_once, completed, add, inserted, nothing_to_do, refused, batch_sealed,
  open_, sealed, seal, finish, pending_count, completed_row, counted_rows, member_task_counts,
}
use django_ox.Oxpull.Batches.Once.{After, completes_once}
use django_ox.Oxpull.Batches.Once
use django_ox.Oxpull.Batches.Counting.{Reached}
use django_ox.Oxpull.Batches.Clean.{is_successful, success_means_clean}
use django_ox.Worker.Claim.{claim_fields}
use django_ox.Examples.{a_call, fresh, a_worker, at_100}

abbrev one_a_minute : RateLimit
one_a_minute = record { limit = 1; per = 60; task_paths = []; queues = "default" ∷ [] }

abbrev new_view : RateView
new_view = record { seen = none; blocked = false; stale = true; closed = false; failures = 0 }

abbrev new_window : RateWindow
new_window = record { window_id = 1; window_started_at = 100; used = 0 }

abbrev rated : Fleet
rated = record { row = new_window; members = record { view = new_view; phase = resting } ∷ [] }

abbrev rated_once : Fleet
rated_once = record {
  row = record new_window { used = 1 };
  members =
      record {
        view = counted (read_window one_a_minute new_window 110 110 new_window new_view).1;
        phase = resting;
      }
      ∷ [];
}

-- The worker reads the window, claims and counts the claim.
one_claim_counted : Reach one_a_minute rated rated_once
unfolding read_window increment
one_claim_counted =
    on
      (on (on (on start (turn 0 _ refl (select 110))) (turn 0 _ refl (take_in new_window 110 110)))
        (turn 0 _ refl (claim refl)))
      (turn 0 _ refl (count 4 (record new_window { used = 1 }) refl))

window_bound_example :
    (rated_once.row.used + 1 ≤ one_a_minute.limit + length rated.members)
    × (one_a_minute.limit ≡ 0 → rated_once.row.used ≡ 0)
window_bound_example =
    window_bound one_a_minute rated rated_once refl ((refl, refl), tt) (omega arith)
      one_claim_counted

abbrev one_at_a_time : ConcurrencyLimit
one_at_a_time = record { max = 1; task_paths = "shop.tasks.charge" ∷ []; queues = [] }

abbrev table_with_one : Table
table_with_one = fresh ∷ []

abbrev new_slot_view : ConcurrencyView
new_slot_view = record { blocked = false; stale = true }

abbrev free_slot : Turns.Fleet
free_slot = record {
  table = table_with_one;
  members = record { view = new_slot_view; phase = Turns.resting } ∷ [];
}

abbrev everything : OxTask → Bool
everything r = true

abbrev taken_slot : Turns.Fleet
taken_slot = record {
  table = update everything (claim_fields a_worker at_100 fresh) table_with_one;
  members =
      record {
        view = mark_stale (finish_read one_at_a_time table_with_one (begin_read new_slot_view));
        phase = Turns.resting;
      }
      ∷ [];
}

-- The worker counts, and then takes the only task.
one_slot_taken : Turns.Reach one_at_a_time free_slot taken_slot
unfolding running_count matched covers finish_read
one_slot_taken =
    Turns.on
      (Turns.on (Turns.on Turns.start (Turns.turn 0 _ refl Turns.begin))
        (Turns.turn 0 _ refl Turns.finish))
      (Turns.turn 0 _ refl (Turns.claim a_worker at_100 fresh everything refl (omega arith)))

slots_bound_example :
    (running_count one_at_a_time taken_slot.table + 1
      ≤ one_at_a_time.max + length taken_slot.members + 0)
    × (one_at_a_time.max ≡ 0 → running_count one_at_a_time taken_slot.table ≡ 0)
unfolding running_count matched covers one_slot_taken
slots_bound_example =
    Slots.slots_bound one_at_a_time free_slot taken_slot (omega arith) ((refl, refl), tt)
      (omega arith) one_slot_taken

abbrev new_row_of_batch : BatchRow
new_row_of_batch = record {
  status = open_;
  total_count = none;
  on_complete = none;
  on_success = some a_call;
  failed_count = none;
  callback_task_id = none;
  success_task_id = none;
  sealed_at = none;
  completed_at = none;
}

abbrev new_batch : Batch
new_batch = record { row = new_row_of_batch; members = []; tasks = [] }

-- The batch with its one task, sealed, and the task done.
abbrev done_batch : Batch
done_batch = record {
  row = record new_row_of_batch { status = sealed; total_count = some 1; sealed_at = some 95 };
  members = 7 ∷ [];
  tasks = record fresh { status = successful } ∷ [];
}

abbrev takes_all : Call → Bool
takes_all c = true

done_batch_completes : (complete_once takes_all 20 21 120 done_batch).1 ≡ completed 0 0
unfolding complete_once finish member_task_counts pending_count matched completed_row counted_rows
done_batch_completes = refl

completes_once_example :
    let b = (complete_once takes_all 20 21 120 done_batch).0 in
    (complete_once takes_all 22 23 130 b ≡ (b, nothing_to_do))
    × (add (inserted 8 a_call 131) b ≡ (b, refused batch_sealed))
    × (b.row ≡ b.row)
    × (b.members ≡ b.members)
completes_once_example =
    completes_once takes_all takes_all 20 21 120 22 23 130 0 0 done_batch _ (inserted 8 a_call 131)
      done_batch_completes Once.start

-- The batch from its creation on: its task, its seal, and the run of the task.
to_done : After new_batch done_batch
unfolding add seal
to_done =
    Once.on (Once.on (Once.on Once.start (Once.adds (inserted 7 a_call 90))) (Once.seals true 95))
      (Once.others done_batch.tasks)

success_means_clean_example : All (Reached is_successful done_batch.tasks) done_batch.members
unfolding complete_once finish member_task_counts pending_count matched completed_row counted_rows
success_means_clean_example =
    success_means_clean takes_all 20 21 120 0 0 21 new_batch done_batch refl tt to_done (tt, tt)
      done_batch_completes refl
