-- ===== src/Life/Epoch.antt =====
-- The lease epoch as a fencing token.
use django_ox.Prelude.{◌<◌, ◌≤◌, ◌≡◌, ◌⊎◌, inl, true, false, List, ◌∷◌, All, arith, All-map, ◌∙◌}
use django_ox.Store.{OxTask, statuses_in}
use django_ox.Worker.Claim.{claim_fields}
use django_ox.Worker.Outcome.{Outcome, writable_statuses, is_fenced_for, outcome_fields}
use django_ox.Worker.Lease.{is_renewed, renewed, requeued, is_abandoned, abandoned}
use django_ox.Worker.Recovery.{is_released, released}
use django_ox.Actions.{is_retryable, can_retry, retried_row, expired_row, discarded_row}
use django_ox.Waiting.{is_waiting_at, released_row, revived_row}
use django_ox.Life.{
  Answers, success, final, again, Write, claimed, answered, renewal, requeue, abandonment,
  unclaimed, retry, retry_in_place, expiry, discard, release, revival, Life, enqueued,
  enqueued_waiting, then, Later, now, next,
}

Write-epoch :
    {r r' : OxTask} {past : List OxTask} → Write r past r' → r.lease_epoch ≤ r'.lease_epoch
unfolding claim_fields outcome_fields is_fenced_for renewed requeued abandoned is_released released
    can_retry retried_row expired_row discarded_row released_row revived_row
Write-epoch (claimed w c s m h) = ground arith
Write-epoch (answered s o m (success v at) h) = ground arith
Write-epoch (answered s o m (final e at true) h) = ground arith
Write-epoch (answered s o m (final e at false) h) = ground arith
Write-epoch (answered s o m (again e at true l) h) = ground arith
Write-epoch (answered s o m (again e at false l) h) = ground arith
Write-epoch (renewal w c pks h) = omega arith
Write-epoch (requeue n k h l) = omega arith
Write-epoch (abandonment c n k note s m e h) = omega arith
Write-epoch (unclaimed w s m h g) = ground arith
Write-epoch (retry s m h) = ground arith
Write-epoch (retry_in_place h) = omega arith
Write-epoch (expiry n h l) = omega arith
Write-epoch (discard n h) = omega arith
Write-epoch (release n h) = omega arith
Write-epoch (revival h) = omega arith

-- Two versions of a row: the later one is at no earlier epoch, and at the same epoch it has the
-- same attempts, budget and history of workers.
pub record Agrees (s r : OxTask) : Type 0 where
  pub same_id : s.id ≡ r.id
  pub no_earlier : s.lease_epoch ≤ r.lease_epoch
  pub same_attempts : s.lease_epoch ≡ r.lease_epoch → s.attempts ≡ r.attempts
  pub same_budget : s.lease_epoch ≡ r.lease_epoch → s.max_attempts ≡ r.max_attempts
  pub same_workers : s.lease_epoch ≡ r.lease_epoch → s.worker_ids ≡ r.worker_ids

Agrees-refl : (r : OxTask) → Agrees r r
Agrees-refl r = ground arith

Agrees-trans : {q s r : OxTask} → Agrees q s → Agrees s r → Agrees q r
Agrees-trans a b = record {
  same_id = a.same_id ∙ b.same_id;
  no_earlier = omega arith;
  same_attempts = λ e. a.same_attempts (omega arith) ∙ b.same_attempts (omega arith);
  same_budget = λ e. a.same_budget (omega arith) ∙ b.same_budget (omega arith);
  same_workers = λ e. a.same_workers (omega arith) ∙ b.same_workers (omega arith);
}

Write-Agrees : {r r' : OxTask} {past : List OxTask} → Write r past r' → Agrees r r'
unfolding claim_fields outcome_fields is_fenced_for renewed requeued abandoned is_released released
    can_retry retried_row expired_row discarded_row released_row revived_row
Write-Agrees (claimed w c s m h) = ground arith
Write-Agrees (answered s o m (success v at) h) = ground arith
Write-Agrees (answered s o m (final e at true) h) = ground arith
Write-Agrees (answered s o m (final e at false) h) = ground arith
Write-Agrees (answered s o m (again e at true l) h) = ground arith
Write-Agrees (answered s o m (again e at false l) h) = ground arith
Write-Agrees (renewal w c pks h) = ground arith
Write-Agrees (requeue n k h l) = ground arith
Write-Agrees (abandonment c n k note s m e h) = ground arith
Write-Agrees (unclaimed w s m h g) = ground arith
Write-Agrees (retry s m h) = ground arith
Write-Agrees (retry_in_place h) = ground arith
Write-Agrees (expiry n h l) = ground arith
Write-Agrees (discard n h) = ground arith
Write-Agrees (release n h) = ground arith
Write-Agrees (revival h) = ground arith

-- Along any life of a row, each version agrees with every later one: the epoch is a version number
-- for attempts, budget and history of workers.
pub Life-Agrees : {r : OxTask} {past : List OxTask} → Life r past → All (λ s. Agrees s r) (r ∷ past)
Life-Agrees (enqueued id call at) = (Agrees-refl _, tt)
Life-Agrees (enqueued_waiting id call at) = (Agrees-refl _, tt)
Life-Agrees (then {r} {r'} {past} l w) = (
  Agrees-refl r',
  All-map (λ s. Agrees s r) (λ s. Agrees s r') (λ s a. Agrees-trans a (Write-Agrees w)) (r ∷ past)
      (Life-Agrees l),
)

-- The attempt that holds the row as `s` has lost its say: the row is at a later epoch, or at this
-- one in a state that no execution may answer.
abbrev pub Closed : OxTask → OxTask → Type 0
Closed s r =
    (s.lease_epoch < r.lease_epoch)
    ⊎ ((s.lease_epoch ≡ r.lease_epoch) × (statuses_in writable_statuses r.status ≡ false))

Closed-Write :
    (s : OxTask) {r r' : OxTask} {past : List OxTask} → Closed s r → Write r past r' → Closed s r'
unfolding claim_fields outcome_fields is_fenced_for is_renewed renewed requeued is_abandoned
    abandoned is_released released can_retry retried_row expired_row discarded_row released_row
    revived_row is_waiting_at is_retryable
Closed-Write q k (claimed w c s m h) = ground arith
Closed-Write q k (answered s o m (success v at) h) = ground arith
Closed-Write q k (answered s o m (final e at true) h) = ground arith
Closed-Write q k (answered s o m (final e at false) h) = ground arith
Closed-Write q k (answered s o m (again e at true l) h) = ground arith
Closed-Write q k (answered s o m (again e at false l) h) = ground arith
Closed-Write q k (renewal w c pks h) = ground arith
Closed-Write q k (requeue n c h l) = ground arith
Closed-Write q k (abandonment c n j note s m e h) = ground arith
Closed-Write q k (unclaimed w s m h g) = ground arith
Closed-Write q k (retry s m h) = ground arith
Closed-Write q k (retry_in_place h) = ground arith
Closed-Write q k (expiry n h l) = ground arith
Closed-Write q k (discard n h) = ground arith
Closed-Write q k (release n h) = ground arith
Closed-Write q k (revival h) = ground arith

Closed-Later :
    (s : OxTask) {r : OxTask} {past : List OxTask} {r' : OxTask} {history : List OxTask}
    → Closed s r
    → Later r past r' history
    → Closed s r'
Closed-Later s k now = k
Closed-Later s k (next l w) = Closed-Write s (Closed-Later s k l) w

Closed-not-fenced : (s r : OxTask) → Closed s r → is_fenced_for s r ≡ false
unfolding is_fenced_for
Closed-not-fenced s r k = ground arith

answer_closes :
    (s r : OxTask) (o : Outcome)
    → Answers s o
    → is_fenced_for s r ≡ true
    → Closed s (outcome_fields o r)
unfolding outcome_fields is_fenced_for
answer_closes s r o (success v at) h = ground arith
answer_closes s r o (final e at true) h = ground arith
answer_closes s r o (final e at false) h = ground arith
answer_closes s r o (again e at true l) h = ground arith
answer_closes s r o (again e at false l) h = ground arith

-- Once an execution has recorded an outcome, no write of its own ever matches the row again,
-- whatever the fleet and its operators do to the row afterwards.
pub answered_once :
    (s r r' : OxTask) (o : Outcome) {past history : List OxTask}
    → Answers s o
    → is_fenced_for s r ≡ true
    → Later (outcome_fields o r) past r' history
    → is_fenced_for s r' ≡ false
answered_once s r r' o a h l = Closed-not-fenced s r' (Closed-Later s (answer_closes s r o a h) l)

-- Once the row has been handed on to a later epoch, by a claim, a requeue, a release or an
-- operator's retry, an execution of an earlier epoch never writes to it again.
pub handed_on :
    (s r r' : OxTask) {past history : List OxTask}
    → s.lease_epoch < r.lease_epoch
    → Later r past r' history
    → is_fenced_for s r' ≡ false
handed_on s r r' h l = Closed-not-fenced s r' (Closed-Later s (inl h) l)
