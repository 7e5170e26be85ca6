-- ===== src/Life/Budget.antt =====
-- The attempt budget: attempts and max_attempts along a life.
use django_ox.Prelude.{◌<◌, ◌≤◌, ◌≡◌, ◌⊎◌, true, false, List, ◌∷◌, All, All-In, arith}
use django_ox.Store.{OxTask, ready, waiting}
use django_ox.Worker.Claim.{claim_fields}
use django_ox.Worker.Outcome.{is_fenced_for, outcome_fields}
use django_ox.Worker.Lease.{is_renewed, renewed, requeued, is_abandoned, abandoned}
use django_ox.Worker.Recovery.{is_released, released, has_whole_history}
use django_ox.Actions.{
  is_retryable, can_retry, retried_row, expired_row, discarded_row, max_attempts_limit,
}
use django_ox.Waiting.{Call, budget, new_row, is_waiting_at, released_row, revived_row}
use django_ox.Life.{
  success, final, again, Write, claimed, answered, renewal, requeue, abandonment, unclaimed, retry,
  retry_in_place, expiry, discard, release, revival, Life, enqueued, enqueued_waiting, then,
}
use django_ox.Life.Epoch.{Agrees, Life-Agrees}

-- A budget that the backend accepts.
abbrev pub IsAccepted : Call → Type 0
IsAccepted call =
    (1 ≤ budget call.declared call.inherited)
    × (budget call.declared call.inherited ≤ max_attempts_limit)

-- A revival brings back whatever was discarded, a row of spent attempts included. This asks that
-- it was given a row with attempts left, as a row cancelled before it ran has.
abbrev pub IsFrugal : {r r' : OxTask} {past : List OxTask} → Write r past r' → Type 0
IsFrugal {r} (revival h) = r.attempts < r.max_attempts
IsFrugal w = Unit {0}

abbrev pub Frugal : {r : OxTask} {past : List OxTask} → Life r past → Type 0
Frugal (enqueued id call at) = IsAccepted call
Frugal (enqueued_waiting id call at) = IsAccepted call
Frugal (then l w) = Frugal l × IsFrugal w

-- At most `max_attempts` claims, one still to come for a row that waits to be claimed, and a
-- budget that fits its column.
pub record IsBudgeted (r : OxTask) : Type 0 where
  pub within : r.attempts ≤ r.max_attempts
  pub one_left : (r.status ≡ ready) ⊎ (r.status ≡ waiting) → r.attempts < r.max_attempts
  pub fits : r.max_attempts ≤ max_attempts_limit

Write-IsBudgeted :
    {r r' : OxTask} {past : List OxTask}
    → All (λ s. Agrees s r) (r ∷ past)
    → IsBudgeted r
    → (w : Write r past r') → IsFrugal w
    → IsBudgeted r'
unfolding claim_fields outcome_fields is_fenced_for is_renewed renewed requeued is_abandoned
    abandoned is_released released has_whole_history can_retry retried_row expired_row discarded_row
    released_row revived_row is_waiting_at is_retryable
Write-IsBudgeted a v (claimed w c s m h) f = ground (arith, All-In _ m a)
Write-IsBudgeted a v (answered s o m (success x at) h) f = ground arith
Write-IsBudgeted a v (answered s o m (final e at b) h) f = ground arith
Write-IsBudgeted a v (answered s o m (again e at true l) h) f = ground (arith, All-In _ m a)
Write-IsBudgeted a v (answered s o m (again e at false l) h) f = ground (arith, All-In _ m a)
Write-IsBudgeted a v (renewal w c pks h) f = ground arith
Write-IsBudgeted a v (requeue n c h l) f = ground arith
Write-IsBudgeted a v (abandonment c n j note s m e h) f = ground (arith, All-In _ m a)
Write-IsBudgeted a v (unclaimed w s m h g) f = ground (arith, All-In _ m a)
Write-IsBudgeted a v (retry s m h) f = ground (arith, All-In _ m a)
Write-IsBudgeted a v (retry_in_place h) f = ground arith
Write-IsBudgeted a v (expiry n h l) f = ground arith
Write-IsBudgeted a v (discard n h) f = ground arith
Write-IsBudgeted a v (release n h) f = ground arith
Write-IsBudgeted a v (revival h) f = ground arith

-- Along a life whose budget the backend accepted and whose revivals had attempts left, the row
-- never goes past its budget, and a claimable row has an attempt left.
pub Life-IsBudgeted : {r : OxTask} {past : List OxTask} (l : Life r past) → Frugal l → IsBudgeted r
unfolding new_row
Life-IsBudgeted (enqueued id call at) f = ground arith
Life-IsBudgeted (enqueued_waiting id call at) f = ground arith
Life-IsBudgeted (then l w) f = Write-IsBudgeted (Life-Agrees l) (Life-IsBudgeted l f.0) w f.1
