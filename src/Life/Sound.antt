-- ===== src/Life/Sound.antt =====
-- The lease columns, the history of workers, the finishing time and the status, along a life.
use django_ox.Prelude.{
  ◌≤◌, ◌≡◌, ◌≢◌, Bool, true, false, not, List, ◌∷◌, All, All-In, arith, is_null, length,
  length-append, length-drop_last,
}
use django_ox.Store.{OxTask, Status, ready, running, failed, successful, lost, discarded, waiting}
use django_ox.Worker.Claim.{claim_fields}
use django_ox.Worker.Outcome.{unlocked, is_fenced_for, outcome_fields}
use django_ox.Worker.Lease.{is_renewed, renewed, requeued, is_abandoned, abandoned}
use django_ox.Worker.Recovery.{is_released, released, has_whole_history}
use django_ox.Actions.{is_retryable, can_retry, retried_row, expired_row, discarded_row}
use django_ox.Waiting.{new_row, is_waiting_at, released_row, revived_row}
use django_ox.Life.{
  success, final, again, Write, claimed, answered, renewal, requeue, abandonment, unclaimed, retry,
  retry_in_place, expiry, discard, release, revival, Life, enqueued, enqueued_waiting, then,
}
use django_ox.Life.Epoch.{Agrees, Life-Agrees}

-- A status that has an outcome, or a closing, on the row.
abbrev pub is_settled : Status → Bool
is_settled failed = true
is_settled successful = true
is_settled lost = true
is_settled discarded = true
is_settled ready = false
is_settled running = false
is_settled waiting = false

-- A running row names its holder and carries both lease times and a start; any other row carries
-- none of the lease columns. A row is finished exactly when it is settled. The history of workers
-- has an entry for each attempt, and a running row has one. A lost row has used its budget.
pub record IsSound (r : OxTask) : Type 0 where
  pub held :
      r.status ≡ running
      → (is_null r.locked_by ≡ false)
        × (is_null r.locked_at ≡ false)
        × (is_null r.lease_expires_at ≡ false)
        × (is_null r.started_at ≡ false)
        × (1 ≤ r.attempts)
  pub free : r.status ≢ running → unlocked r ≡ true
  pub finished : is_null r.finished_at ≡ not (is_settled r.status)
  pub one_worker_each : length r.worker_ids ≡ r.attempts
  pub spent : r.status ≡ lost → r.max_attempts ≤ r.attempts

Write-IsSound :
    {r r' : OxTask} {past : List OxTask}
    → All (λ s. Agrees s r) (r ∷ past)
    → IsSound r
    → Write r past r'
    → IsSound r'
unfolding claim_fields outcome_fields is_fenced_for is_renewed renewed requeued is_abandoned
    abandoned is_released released has_whole_history can_retry retried_row expired_row discarded_row
    released_row revived_row is_waiting_at is_retryable
Write-IsSound a v (claimed w c s m h) = let g = All-In _ m a in grind (arith, length-append)
Write-IsSound a v (answered s o m (success x at) h) = ground arith
Write-IsSound a v (answered s o m (final e at true) h) = ground arith
Write-IsSound a v (answered s o m (final e at false) h) = ground arith
Write-IsSound a v (answered s o m (again e at true l) h) = ground (arith, All-In _ m a)
Write-IsSound a v (answered s o m (again e at false l) h) = ground (arith, All-In _ m a)
Write-IsSound a v (renewal w c pks h) = ground arith
Write-IsSound a v (requeue n c h l) = ground arith
Write-IsSound a v (abandonment c n j note s m e h) = ground (arith, All-In _ m a)
Write-IsSound a v (unclaimed w s m h g) = ground (arith, length-drop_last s.worker_ids)
Write-IsSound a v (retry s m h) = ground arith
Write-IsSound a v (retry_in_place h) = ground arith
Write-IsSound a v (expiry n h l) = ground arith
Write-IsSound a v (discard n h) = ground arith
Write-IsSound a v (release n h) = ground arith
Write-IsSound a v (revival h) = ground arith

-- Along any life of a row, it is sound: the lease columns are set exactly while it runs, it has a
-- finishing time exactly when it is settled, one entry of the worker history for each attempt, and
-- no attempt left when it is lost.
pub Life-IsSound : {r : OxTask} {past : List OxTask} → Life r past → IsSound r
unfolding new_row
Life-IsSound (enqueued id call at) = ground arith
Life-IsSound (enqueued_waiting id call at) = ground arith
Life-IsSound (then l w) = Write-IsSound (Life-Agrees l) (Life-IsSound l) w
