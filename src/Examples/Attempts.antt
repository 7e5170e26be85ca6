-- ===== src/Examples/Attempts.antt =====
-- How attempts end: outcomes recorded over a good and a failing connection, and retries.
use django_ox.Prelude.{
  ℕ, ◌≡◌, ◌<◌, ◌↔◌, refl, ◌⊎◌, true, false, some, List, [], ◌∷◌, Each, In, here, there,
}
use django_ox.Store.{OxTask, Table}
use django_ox.Worker.Outcome.{Outcome, succeeded, write_outcome_reconnecting, answered, failed_with}
use django_ox.Worker.Outcome.Once.{AtMostOnce, table_of, reconnecting-AtMostOnce}
use django_ox.Worker.Failure.{decide, decided, run_attempt, errored}
use django_ox.Worker.Failure.Delay.{decide-retries_iff, Allows}
use django_ox.Worker.Recovery.{has_whole_history}
use django_ox.Fleet.{RowStep}
use django_ox.Fleet.Attempts.{run_attempt-steps, handled_table, calm}
use django_ox.Fleet.Statements.{releases, execute}
use django_ox.Fleet.Pinned.{IsPinned}
use django_ox.Fleet.Worker.{execute-steps}
use django_ox.Examples.{a_worker, at_100, fresh, held, second_task, an_error, thirty_seconds}

abbrev one_held : Table
one_held = second_task ∷ held ∷ []

abbrev a_success : Outcome
a_success = succeeded "42" [] 200

-- The first write committed and its reply was lost; a later connect was refused; the next answered.
reconnecting-AtMostOnce_example : AtMostOnce held a_success one_held (
    table_of (
      write_outcome_reconnecting held a_success
        (λ k x. x)
        (failed_with true true)
        (failed_with false true ∷ answered ∷ [])
        one_held))
reconnecting-AtMostOnce_example =
    reconnecting-AtMostOnce held a_success (failed_with true true)
      (failed_with false true ∷ answered ∷ []) one_held

decide-retries_iff_example :
    ((delay : ℕ) × (decide a_worker (some thirty_seconds) held ≡ decided (some delay) false))
    ↔ ((held.attempts < held.max_attempts) × Allows (some thirty_seconds))
decide-retries_iff_example = decide-retries_iff a_worker (some thirty_seconds) held

abbrev earlier : ℕ → List OxTask
earlier k = fresh ∷ []

same_row : (r : OxTask) → In r (held ∷ []) → r.id ≡ held.id → In held (r ∷ earlier r.id)
same_row r here e = here
same_row r (there m) e = elim m [ ]

run_attempt-steps_example : Each (RowStep earlier) (held ∷ []) (
    handled_table (
      run_attempt a_worker at_100
        (calm answered [])
        thirty_seconds
        held
        (errored an_error)
        (held ∷ [])))
run_attempt-steps_example =
    run_attempt-steps a_worker at_100 answered [] earlier held (held ∷ []) same_row thirty_seconds
      (errored an_error)

-- The release of a claim that raised.
execute-steps_example :
    let after = execute a_worker (releases held) (held ∷ []) in
    Each (RowStep earlier) (held ∷ []) after
    × Each (λ r r'. (r' ≡ r) ⊎ IsPinned a_worker (releases held) r r') (held ∷ []) after
unfolding has_whole_history
execute-steps_example = execute-steps earlier a_worker (releases held) (held ∷ []) (same_row, refl)
