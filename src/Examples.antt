-- ===== src/Examples.antt =====
-- The theorems applied to small concrete rows, tables and expressions.
use django_ox.Prelude.{true, false, none, some, [], ◌∷◌}
use django_ox.Store.{OxTask, ErrorEntry, ready, running}
use django_ox.Worker.{Worker, Clock}
use django_ox.Worker.Claim.{Database}
use django_ox.Worker.Failure.{AttemptPolicy, Answer, ℤ}
use django_ox.Waiting.{Call}
mod Claims
mod Attempts
mod Lives
mod Rows
mod Ticks
mod Oxpull
mod Schedules
mod Flows
mod Dag
mod Cones
mod Stored
mod Uniques

abbrev pub a_worker : Worker
a_worker = record {
  worker_id = "w1";
  queues = [];
  lock_timeout = 600;
  reap_batch = 100;
  backoff_initial = 10;
  backoff_max = 1000;
  claim_filter_q = none;
  claim_filter_sql = none;
}

abbrev pub at_100 : Clock
at_100 = record { process = 100; lease = 101 }

abbrev pub a_call : Call
a_call = record {
  module_path = "shop.tasks.charge";
  args = "[]";
  kwargs = "{}";
  queue_name = "default";
  priority = 32768;
  takes_context = false;
  alias = "default";
  run_after = none;
  declared = some 3;
  inherited = 1;
}

-- A task that was enqueued and never touched.
abbrev pub fresh : OxTask
fresh = record {
  id = 7;
  task_path = "shop.tasks.charge";
  args = "[]";
  kwargs = "{}";
  queue_name = "default";
  priority = 32768;
  takes_context = false;
  backend_name = "default";
  status = ready;
  run_after = none;
  attempts = 0;
  max_attempts = 3;
  return_value = none;
  errors = [];
  worker_ids = [];
  enqueued_at = 90;
  started_at = none;
  last_attempted_at = none;
  finished_at = none;
  locked_by = none;
  locked_at = none;
  lease_expires_at = none;
  lease_epoch = 0;
}

-- The same task as its first claim leaves it.
abbrev pub held : OxTask
held = record fresh {
  status = running;
  attempts = 1;
  worker_ids = "w1" ∷ [];
  started_at = some 101;
  last_attempted_at = some 101;
  locked_by = some "w1";
  locked_at = some 101;
  lease_expires_at = some 701;
  lease_epoch = 1;
}

-- Two tasks, the second of a lower priority.
abbrev pub second_task : OxTask
second_task = record fresh { id = 9; priority = 32763 }

abbrev pub an_error : ErrorEntry
an_error = record { exception_class_path = "builtins.ValueError"; traceback = "" }

abbrev pub postgresql : Database
postgresql = record { is_postgresql = true; has_skip_locked = true }

-- A policy whose backoff asks for 30 seconds.
abbrev pub thirty_seconds : AttemptPolicy
thirty_seconds = record {
  pk = 7;
  epoch = 1;
  has_task = true;
  backoff = some (Answer.whole_seconds (ℤ.pos 30));
  inline = false;
}
