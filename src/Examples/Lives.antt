-- ===== src/Examples/Lives.antt =====
-- Lives of one row: enqueued, claimed, answered, taken over.
use django_ox.Prelude.{◌≡◌, refl, false, none, [], ◌∷◌, All, here, arith}
use django_ox.Worker.Claim.{claim_fields}
use django_ox.Worker.Outcome.{Outcome, exhausted, outcome_fields, is_fenced_for}
use django_ox.Worker.Lease.{requeued, abandoned_lease_q}
use django_ox.Actions.{retried_self, is_retryable}
use django_ox.Waiting.{new_row}
use django_ox.Life.{Life, enqueued, then, claimed, requeue, retry_in_place, final, now, next}
use django_ox.Life.Epoch.{Agrees, Life-Agrees, answered_once, handed_on}
use django_ox.Life.Sound.{IsSound, Life-IsSound}
use django_ox.Life.Budget.{IsBudgeted, Life-IsBudgeted}
use django_ox.Examples.{a_worker, at_100, a_call, fresh, held, an_error}

abbrev a_failure : Outcome
a_failure = exhausted (an_error ∷ []) 200 none

-- Enqueued, claimed, and taken over by the reaper.
taken_over : Life (requeued held) (held ∷ fresh ∷ [])
unfolding new_row claim_fields abandoned_lease_q
taken_over =
    then (then (enqueued 7 a_call 90) (claimed a_worker at_100 fresh here refl))
      (requeue 702 0 refl refl)

-- Failed for good, and then retried by an operator.
answered_once_example : is_fenced_for held (retried_self (outcome_fields a_failure held)) ≡ false
unfolding outcome_fields is_retryable is_fenced_for
answered_once_example =
    answered_once held held (retried_self (outcome_fields a_failure held)) a_failure
      {past = fresh ∷ []} (final an_error 200 false) refl (next now (retry_in_place refl))

-- Requeued, and then claimed again.
handed_on_example :
    is_fenced_for held (claim_fields a_worker at_100 (requeued held) (requeued held)) ≡ false
unfolding requeued
handed_on_example =
    handed_on held (requeued held) (claim_fields a_worker at_100 (requeued held) (requeued held))
      {past = held ∷ fresh ∷ []} (omega arith)
      (next now (claimed a_worker at_100 (requeued held) here refl))

Life-Agrees_example : All (λ s. Agrees s (requeued held)) (requeued held ∷ held ∷ fresh ∷ [])
Life-Agrees_example = Life-Agrees taken_over

Life-IsSound_example : IsSound (requeued held)
Life-IsSound_example = Life-IsSound taken_over

Life-IsBudgeted_example : IsBudgeted (claim_fields a_worker at_100 fresh fresh)
unfolding new_row
Life-IsBudgeted_example =
    Life-IsBudgeted (then (enqueued 7 a_call 90) (claimed a_worker at_100 fresh here refl))
      ((omega arith, omega arith), tt)
