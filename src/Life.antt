-- ===== src/Life.antt =====
-- The life of one row of the task table: every UPDATE that src/django_ox issues against a row,
-- as a step relation. A step may use any version of the row that was ever read, since a worker and
-- an operator act on what they read earlier; the WHERE of the statement is its premise.
use django_ox.Prelude.{
  ℕ, ◌+◌, ◌<◌, ◌≤◌, ◌≡◌, Bool, true, false, ◌&&◌, Option, List, [], ◌∷◌, ◌++◌, String, In, is_null,
}
use django_ox.Store.{OxTask, ErrorEntry, running, discarded, waiting}
use django_ox.Worker.{Worker, Clock}
use django_ox.Worker.Claim.{claim_fields, unmoved}
use django_ox.Worker.Outcome.{Outcome, succeeded, exhausted, retried, is_fenced_for, outcome_fields}
use django_ox.Worker.Failure.{handover}
use django_ox.Worker.Lease.{
  Attempt, is_renewed, renewed, is_stuck, has_attempts_left, requeued, is_abandoned, abandoned,
}
use django_ox.Worker.Recovery.{is_released, released, has_whole_history}
use django_ox.Actions.{
  is_retryable, retried_self, can_retry, retried_row, at_epoch, expired_row, is_discardable,
  discarded_row,
}
use django_ox.Waiting.{Call, new_row, is_waiting_at, released_row, revived_row}
pub mod Epoch
pub mod Sound
pub mod Budget

-- The outcomes that an execution holding `s` may record: a retry only with attempts left, and the
-- new epoch of the stuck-thread case or none.
pub data Answers (s : OxTask) : Outcome → Type 0 where
  success : (v : String) (at : ℕ) → Answers s (succeeded v s.errors at)
  final :
      (entry : ErrorEntry) (at : ℕ) (release : Bool)
      → Answers s (exhausted (s.errors ++ entry ∷ []) at (handover release s))
  again :
      (entry : ErrorEntry) (at : ℕ) (release : Bool)
      → s.attempts < s.max_attempts
      → Answers s (retried (s.errors ++ entry ∷ []) at (handover release s))

-- One UPDATE that matched the row `r`, whose earlier versions are `past`.
pub data Write (r : OxTask) (past : List OxTask) : OxTask → Type 0 where
  claimed :
      (w : Worker) (c : Clock) (s : OxTask)
      → In s (r ∷ past)
      → unmoved s r ≡ true
      → Write r past (claim_fields w c s r)
  answered :
      (s : OxTask) (o : Outcome)
      → In s (r ∷ past)
      → Answers s o
      → is_fenced_for s r ≡ true
      → Write r past (outcome_fields o r)
  renewal :
      (w : Worker) (c : Clock) (pks : List Attempt)
      → is_renewed w pks r ≡ true
      → Write r past (renewed w c r)
  requeue :
      (now cutoff : ℕ)
      → is_stuck now cutoff r ≡ true
      → has_attempts_left r ≡ true
      → Write r past (requeued r)
  abandonment :
      (c : Clock) (now cutoff : ℕ) (note : Option String → String) (s : OxTask)
      → In s (r ∷ past)
      → s.max_attempts ≤ s.attempts
      → is_abandoned now cutoff s r ≡ true
      → Write r past (abandoned c note s r)
  unclaimed :
      (w : Worker) (s : OxTask)
      → In s (r ∷ past)
      → has_whole_history w s ≡ true
      → is_released w s r ≡ true
      → Write r past (released s r)
  retry :
      (s : OxTask)
      → In s (r ∷ past)
      → (can_retry s.id r && at_epoch s.lease_epoch r) ≡ true
      → Write r past (retried_row s.lease_epoch s.attempts r)
  retry_in_place : is_retryable r ≡ true → Write r past (retried_self r)
  expiry :
      (now : ℕ)
      → r.status ≡ running
      → is_null r.locked_at ≡ false
      → Write r past (expired_row now r)
  discard : (now : ℕ) → is_discardable r ≡ true → Write r past (discarded_row now r)
  release :
      (now : ℕ) → is_waiting_at r.id r.lease_epoch r ≡ true → Write r past (released_row now r)
  revival : r.status ≡ discarded → Write r past (revived_row r)

-- A row and its earlier versions, the latest first.
pub data Life : OxTask → List OxTask → Type 0 where
  enqueued : (id : ℕ) (call : Call) (now : ℕ) → Life (new_row id call now) []
  enqueued_waiting :
      (id : ℕ) (call : Call) (now : ℕ) → Life (record (new_row id call now) { status = waiting }) []
  then : {r r' : OxTask} {past : List OxTask} → Life r past → Write r past r' → Life r' (r ∷ past)

-- What a row may go through from one version on.
pub data Later (r : OxTask) (past : List OxTask) : OxTask → List OxTask → Type 0 where
  now : Later r past r past
  next :
      {s s' : OxTask} {history : List OxTask}
      → Later r past s history
      → Write s history s'
      → Later r past s' (s ∷ history)
