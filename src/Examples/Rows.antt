-- ===== src/Examples/Rows.antt =====
-- Operators, the reaper and pinned rows.
use django_ox.Prelude.{
  ℕ, ltb, if◌then◌else◌, ◌≡◌, ◌-◌, ◌↔◌, refl, ◌==◌, true, false, Option, none, some, [], ◌∷◌,
  String, Each, In, here, arith,
}
use django_ox.Store.{OxTask, Table, failed, ready, update, matched, statuses_in}
use django_ox.Worker.{Clock}
use django_ox.Worker.Claim.{claim_fields, unmoved}
use django_ox.Worker.Lease.{is_stuck, renewed, requeued, reap}
use django_ox.Worker.Lease.Expiry.{lease_expiry_decides}
use django_ox.Worker.Lease.Reaper.{reap_complete}
use django_ox.Actions.{discard_write}
use django_ox.Actions.Contention.{Ending, value, database_error, run}
use django_ox.Actions.Contention.Retries.{Ends, run-Ends}
use django_ox.Actions.Race.{claim_or_discard}
use django_ox.Waiting.Pinned.{pinned_rows}
use django_ox.Waiting.Pinned.Exact.{pinned_rows_iff}
use django_ox.Fleet.{RowStep}
use django_ox.Fleet.Operators.{Operation, operate, operate-steps}
use django_ox.Examples.{a_worker, at_100, fresh, held, second_task}

-- A task that failed on its last attempt, and the table it is in.
abbrev failed_task : OxTask
failed_task = record held {
  status = failed;
  attempts = 3;
  finished_at = some 300;
  locked_by = none;
  locked_at = none;
  lease_expires_at = none;
}

abbrev with_failure : Table
with_failure = second_task ∷ failed_task ∷ []

claim_or_discard_example :
    ((matched (unmoved fresh) (fresh ∷ []) == 1) ≡ true
      → (discard_write 400 7 fresh
          (update (unmoved fresh) (claim_fields a_worker at_100 fresh) (fresh ∷ []))).1
        ≡ false)
    × ((discard_write 400 7 fresh (fresh ∷ [])).1 ≡ true
        → matched (unmoved fresh) (discard_write 400 7 fresh (fresh ∷ [])).0 ≡ 0)
claim_or_discard_example = claim_or_discard a_worker at_100 400 fresh (fresh ∷ []) (tt, tt)

lease_expiry_decides_example :
    (is_stuck 702 650 (claim_fields a_worker at_100 fresh held) ≡ true)
    × (is_stuck 702 650 (renewed a_worker at_100 held) ≡ true)
lease_expiry_decides_example = lease_expiry_decides a_worker at_100 fresh held 702 650 refl

abbrev much_later : Clock
much_later = record { process = 900; lease = 901 }

abbrev lost_note : Option String → String
lost_note holder = "The worker went away."

reap_complete_example : is_stuck 901 (901 - 600) (requeued held) ≡ false
unfolding reap update
reap_complete_example =
    reap_complete true a_worker much_later lost_note (held ∷ []) (omega arith) (requeued held) here

pinned_rows_iff_example :
    (pinned_rows ((7, 0) ∷ (9, 4) ∷ []) (ready ∷ []) fresh ≡ true)
    ↔ (In {A = ℕ × ℕ} (7, 0) ((7, 0) ∷ (9, 4) ∷ []) × (statuses_in (ready ∷ []) ready ≡ true))
pinned_rows_iff_example =
    pinned_rows_iff ((7, 0) ∷ (9, 4) ∷ []) (ready ∷ []) fresh ((refl, tt), (tt, tt))

operate-steps_example :
    Each
      (RowStep (λ k. []))
      with_failure
      (operate (λ s. none) (Operation.retries_chunk (7 ∷ [])) with_failure)
operate-steps_example =
    operate-steps (λ k. []) (λ s. none) (Operation.retries_chunk (7 ∷ [])) with_failure tt

-- A body that meets two deadlocks and then returns.
abbrev third_time : ℕ → Ending ℕ
third_time n = if ltb n 3 then database_error true else value n

run-Ends_example : Ends third_time 1 3 (run 3 third_time)
run-Ends_example = run-Ends 3 third_time (omega arith)
