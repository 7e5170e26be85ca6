-- ===== src/Worker/Failure.antt =====
-- A failed attempt: Worker._handle_failure, _attempt_policy and _backoff_decision, and the parts of
-- _run_attempt and _handle_stuck that decide what is recorded.
use django_ox.Prelude.{
  ℕ, ◌+◌, ◌-◌, ◌*◌, ◌^◌, min, Bool, true, false, ◌&&◌, Option, none, some, List, [], ◌∷◌, ◌++◌,
  String, ◌==◌, ltb, leb, if◌then◌else◌,
}
use django_ox.Store.{OxTask, ErrorEntry, Table}
use django_ox.Worker.{Worker, Clock}
use django_ox.Worker.Outcome.{
  Outcome, succeeded, exhausted, retried, Written, write_outcome, Reply, Recorded, returned, raised,
  write_outcome_reconnecting,
}
pub mod Delay

-- Python's int, as far as the code tells numbers apart: `negsuc n` is -(n + 1).
pub data ℤ : Type 0 where
  pos negsuc : ℕ → ℤ

-- What a task's backoff callback did. A timedelta is a number of microseconds. `raising` says
-- whether the exception is an Exception; KeyboardInterrupt, SystemExit and the like are not.
pub data Answer : Type 0 where
  declines awaitable unusable : Answer
  whole_seconds timedelta : ℤ → Answer
  raising : (is_exception : Bool) → Answer

-- _AttemptPolicy: the attempt it belongs to, whether it has a task, and what its backoff, if it
-- has one, answers for this failure.
pub record AttemptPolicy : Type 0 where
  pub pk : ℕ
  pub epoch : ℕ
  pub has_task : Bool
  pub backoff : Option Answer
  pub inline : Bool

-- _attempt_policy: the policy this thread holds, if it is this attempt's.
unfoldable pub attempt_policy : Option AttemptPolicy → OxTask → Option AttemptPolicy
attempt_policy none db_task = none
attempt_policy (some p) db_task =
    if p.pk == db_task.id && p.epoch == db_task.lease_epoch then some p else none

-- MAX_SECONDS, a thousand years, and one second in microseconds.
abbrev pub max_seconds : ℕ
max_seconds = 31557600000

abbrev pub second : ℕ
second = 1000000

-- The pair (delay, declined) of _backoff_decision, the delay in microseconds; or the exception of
-- the callback, let through.
pub data Decision : Type 0 where
  decided : (delay : Option ℕ) (declined : Bool) → Decision
  propagates : Decision

abbrev pub in_range : ℕ → ℕ → Decision
in_range micros limit = if leb micros limit then decided (some micros) false else decided none false

unfoldable pub backoff_decision : (inline : Bool) → Answer → Decision
backoff_decision inline declines = decided none true
backoff_decision inline awaitable = decided none false
backoff_decision inline unusable = decided none false
backoff_decision inline (whole_seconds (pos s)) = in_range (s * second) (max_seconds * second)
backoff_decision inline (whole_seconds (negsuc s)) = decided none false
backoff_decision inline (timedelta (pos m)) = in_range m (max_seconds * second)
backoff_decision inline (timedelta (negsuc m)) = decided none false
backoff_decision inline (raising true) = decided none false
backoff_decision true (raising false) = propagates
backoff_decision false (raising false) = decided none false

-- The worker's exponential backoff: 2 ** min(max(attempts - 1, 0), 64) times the first delay,
-- capped. `-` on ℕ is the max with 0.
unfoldable pub worker_backoff : Worker → ℕ → ℕ
worker_backoff w attempts = min (w.backoff_initial * 2 ^ min (attempts - 1) 64) w.backoff_max

abbrev pub fall_back : Worker → ℕ → Decision → Decision
fall_back w attempts (decided none false) = decided (some (worker_backoff w attempts)) false
fall_back w attempts d = d

abbrev pub ask_backoff : Option AttemptPolicy → Decision
ask_backoff none = decided none false
ask_backoff (some p) = elim p.backoff [
  | none ↦ decided none false
  | some a ↦ backoff_decision p.inline a
]

-- The delay before the next attempt, or none when the failure is final.
unfoldable pub decide : Worker → Option AttemptPolicy → OxTask → Decision
unfolding worker_backoff backoff_decision
decide w policy db_task =
    if ltb db_task.attempts db_task.max_attempts
    then fall_back w db_task.attempts (ask_backoff policy)
    else decided none false

abbrev pub handover : Bool → OxTask → Option ℕ
handover true db_task = some (db_task.lease_epoch + 1)
handover false db_task = none

unfoldable pub failure_outcome : ℕ → Bool → OxTask → ErrorEntry → Option ℕ → Outcome
failure_outcome now release db_task entry none =
    exhausted (db_task.errors ++ entry ∷ []) now (handover release db_task)
failure_outcome now release db_task entry (some delay) =
    retried (db_task.errors ++ entry ∷ []) (now + delay) (handover release db_task)

-- Whether task_finished is sent after a FAILED write that landed: `importable` is whether
-- task_result_from_db can import the task, asked when no policy is held.
abbrev pub finished_signal : Option ℕ → Option AttemptPolicy → Bool → Bool
finished_signal (some delay) policy importable = false
finished_signal none none importable = importable
finished_signal none (some p) importable = p.has_task

-- What recording an attempt leaves: the table, whether the write landed, whether task_finished was
-- sent; or an exception that leaves the method, with the table it leaves.
pub data Handled : Type 0 where
  done : Table → (landed signalled : Bool) → Handled
  escaped : Table → Handled

abbrev pub signal_if : Bool → Written → Handled
signal_if signal v = done v.table v.landed (v.landed && signal)

abbrev pub signal_recorded : Bool → Recorded → Handled
signal_recorded signal (returned v) = signal_if signal v
signal_recorded signal (raised t) = escaped t

-- The connection under the write: what other sessions do before each later try, and how the tries
-- end. The stuck-thread record makes the single write.
pub record Wire : Type 0 where
  pub others : ℕ → Table → Table
  pub first_reply : Reply
  pub replies : List Reply

unfoldable pub record_outcome : Bool → Wire → OxTask → Outcome → Bool → Table → Handled
unfolding write_outcome_reconnecting write_outcome
record_outcome true wire db_task o signal t = signal_if signal (write_outcome db_task o t)
record_outcome false wire db_task o signal t =
    signal_recorded signal
      (write_outcome_reconnecting db_task o wire.others wire.first_reply wire.replies t)

abbrev pub policy_for : Bool → Option AttemptPolicy → OxTask → Option AttemptPolicy
policy_for true held db_task = none
policy_for false held db_task = attempt_policy held db_task

unfoldable pub handle_failure :
    Worker
    → Clock
    → Wire
    → (held : Option AttemptPolicy) → (release importable : Bool) → OxTask
    → ErrorEntry
    → Table
    → Handled
unfolding decide attempt_policy failure_outcome record_outcome
handle_failure w c wire held release importable db_task entry t =
    elim (decide w (policy_for release held db_task) db_task) [
      | propagates ↦ escaped t
      | decided delay declined ↦
          record_outcome release wire db_task
            (failure_outcome c.process release db_task entry delay)
            (finished_signal delay (policy_for release held db_task) importable) t
    ]

-- How the body of an attempt ended, as the except clauses of _run_attempt tell it apart.
pub data Ending : Type 0 where
  value : String → Ending
  timed_out errored interrupted : ErrorEntry → Ending

-- The recording half of _run_attempt. Inline, an interrupt is the caller's and nothing is recorded.
unfoldable pub run_attempt :
    Worker → Clock → Wire → AttemptPolicy → OxTask → Ending → Table → Handled
unfolding handle_failure record_outcome
run_attempt w c wire p db_task (value v) t =
    record_outcome false wire db_task (succeeded v db_task.errors c.process) true t
run_attempt w c wire p db_task (timed_out e) t =
    handle_failure w c wire (some p) false true db_task e t
run_attempt w c wire p db_task (errored e) t =
    handle_failure w c wire (some p) false true db_task e t
run_attempt w c wire p db_task (interrupted e) t =
    if p.inline then escaped t else handle_failure w c wire (some p) false true db_task e t
