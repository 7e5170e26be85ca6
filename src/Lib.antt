-- ===== src/Lib.antt =====
-- django-ox keeps its tasks in one database table and runs them from a fleet of workers. This library
-- models what its sessions do to that table, the schedules that enqueue into it, and of the package
-- oxpull, which builds on it, the limits and the batches.
--
-- Parts, and the files that model them (paths from the repository's root):
--   Store           src/django_ox/models.py: the row of OxTask, and the conditional UPDATE.
--   Worker          src/django_ox/worker.py, class Worker. Claim: claim_one and its three paths.
--                   Outcome: _write_outcome and _write_outcome_reconnecting. Failure: _handle_failure,
--                   _backoff_decision, what _run_attempt records. Lease: renew_leases and reap.
--                   Recovery: _release_claim and _recover_claims.
--   Actions         src/django_ox/actions.py: retry, discard, expire_lease and the _many forms; with
--                   src/django_ox/_contention.py in Actions/Contention.
--   Waiting         src/django_ox/_waiting.py, and the row that src/django_ox/backend.py builds.
--   Life            every UPDATE of the parts above as one step relation on the versions of a row.
--   Fleet           the functions of Worker, Actions and Waiting over a whole table, as such steps, and
--                   in Pinned what the statements of the worker ask of a row.
--   Cron            src/django_ox/cron.py: the parser, and the searches for a tick.
--   Schedules       src/django_ox/schedules.py: IntervalTrigger and the tick log, with the reads of
--                   src/django_ox/_stored_read.py. Interval: what an interval answers. Dispatch:
--                   dispatch_schedules, still_due and the first sighting of src/django_ox/worker.py.
--                   Stored: src/django_ox/stored.py, the rules for a row and the schedule made of it.
--   Oxpull          src/oxpull. Gate: what a limit promises. RateLimits: the windows of worker.py, under
--                   rate_limits.py. Concurrency: _read_running, under concurrency.py. Batches:
--                   batches.py, from add to the reconciler. Filter: the condition that worker.py adds to
--                   a claim. Workflows: workflows.py. Row is add and seal, Cancel, Release and
--                   Classes what the reconciler writes and reads, Completion its last transaction,
--                   Reconcile a tick on one workflow, Retire and Retained what oxpull_prune deletes,
--                   Prune which workflows it visits;
--                   Steps and Gate are the transactions of all workflows in any order, and what they
--                   keep. Unique: the lock rows of backend.py and unique.py.
--   Prelude         lists, tests on numbers, sorting. Examples: the theorems at concrete values.
--
-- The parts meet in the table. A function here takes the table and gives the table that its statements
-- leave, with what the method returns; a statement is a WHERE, a Boolean function of a row, and a SET.
-- What other sessions do between two statements is a parameter (`others`), and so are the rows they hold
-- locked. A worker or an operator may act on a row that it read long before: in Life a step takes any
-- earlier version, and an interleaving of statements is a sequence of steps.
--
-- Times are microseconds, ids the bytes of a UUID read as one number, JSON values their texts, and
-- priorities are shifted so as not to be negative. Exceptions are values. The connection's failures are
-- given as a list of replies, and `later_tries` walks it; a list that runs out is a try that fails for
-- good. The searches of Cron run on fuel, one round more than the minutes to the bound of the search:
-- each round moves by a minute at least. A unique enqueue makes MAX_UNIQUE_ATTEMPTS tries. A text of Cron
-- is its ASCII codes, and a year has no upper bound.
--
-- A rate limit and a concurrency limit are each followed for one name, since the code treats every name
-- in statements of its own. Gate is their specification: a worker is armed from a reading below the limit
-- until it has admitted one task, whatever the others do. A dispatch of a schedule is one transaction on
-- the log as it then stands, and what the worker read before is a parameter, right or out of date. Between
-- two dispatches tasks may be deleted, which clears the tick's task, and ticks may be pruned.
--
-- The cancellation of a tick runs MAX_CANCEL_PASSES levels at most. Where a transaction of a workflow reads
-- more than once, each read has a state of its own as a parameter, so that other sessions may have
-- written between them; a theorem that needs them to be one says that nothing else runs between.
--
-- Not modelled: the running of task bodies, threads and timeouts, reconnecting, logging and signals'
-- receivers; how schedules are read from settings, the writes of stored schedules, heartbeats, the
-- supervisor, the admin, statistics and stored results; of oxpull the backstop of workflows with its scan
-- rows, the reads of a unique task's holder inside a caller's snapshot, the parsing of
-- its options and the reconciler's sweep. A time zone is a function on wall-clock times.
pub mod Prelude
pub mod Store
pub mod Worker
pub mod Actions
pub mod Waiting
pub mod Life
pub mod Fleet
pub mod Cron
pub mod Oxpull
pub mod Schedules
pub mod Examples
