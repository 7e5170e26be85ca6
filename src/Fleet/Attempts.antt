-- ===== src/Fleet/Attempts.antt =====
-- The record of an attempt as a step of rows: Worker._run_attempt and _handle_failure.
use django_ox.Prelude.{
  ℕ, ◌+◌, ◌≡◌, refl, inl, inr, Bool, true, false, Option, none, some, List, Each, Each-refl,
  Bool-cases, arith,
}
use django_ox.Store.{OxTask, ErrorEntry, Table}
use django_ox.Store.Update.{update-Each}
use django_ox.Worker.{Worker, Clock}
use django_ox.Worker.Outcome.{
  Outcome, succeeded, is_fenced_for, outcome_fields, write_outcome, Reply, Recorded, returned,
  raised, write_outcome_reconnecting,
}
use django_ox.Worker.Outcome.Once.{
  AtMostOnce, reconnecting-AtMostOnce, write_outcome-table, table_of,
}
use django_ox.Worker.Failure.{
  AttemptPolicy, Decision, decided, propagates, decide, failure_outcome, Handled, done, escaped,
  Wire, record_outcome, handle_failure, Ending, value, timed_out, errored, interrupted, run_attempt,
  policy_for, signal_recorded, finished_signal,
}
use django_ox.Worker.Failure.Delay.{decide-bounds}
use django_ox.Life.{Answers, success, final, again, answered}
use django_ox.Fleet.{RowStep, IsRead}

module _ (past : ℕ → List OxTask) where
  fenced_id : (s r : OxTask) → is_fenced_for s r ≡ true → r.id ≡ s.id
  unfolding is_fenced_for
  fenced_id s r h = ground arith

  write_outcome-steps :
      (s : OxTask) (o : Outcome) (t : Table)
      → Answers s o
      → IsRead past t s
      → Each (RowStep past) t (write_outcome s o t).table
  write_outcome-steps s o t a known = rw (write_outcome-table s o t) (
      update-Each (is_fenced_for s) (outcome_fields o) t λ r m.
        elim (Bool-cases (is_fenced_for s r)) [
          | inl e ↦ rw e (inr (answered s o (known r m (fenced_id s r e)) a e))
          | inr e ↦ rw e (inl refl)
        ])

  once-steps :
      (s : OxTask) (o : Outcome) (t t' : Table)
      → Answers s o
      → IsRead past t s
      → AtMostOnce s o t t'
      → Each (RowStep past) t t'
  once-steps s o t t' a known (inl e) = rw e (Each-refl (λ r. inl refl) t)
  once-steps s o t t' a known (inr e) = rw e (write_outcome-steps s o t a known)

failure_outcome-Answers :
    (w : Worker) (policy : Option AttemptPolicy) (s : OxTask) (now : ℕ) (release : Bool)
    (entry : ErrorEntry) (delay : Option ℕ) (declined : Bool)
    → decide w policy s ≡ decided delay declined
    → Answers s (failure_outcome now release s entry delay)
unfolding failure_outcome
failure_outcome-Answers w policy s now release entry none declined e = final entry now release
failure_outcome-Answers w policy s now release entry (some d) declined e =
    again entry (now + d) release (decide-bounds w policy s d declined e).0

abbrev pub handled_table : Handled → Table
handled_table (done t landed signalled) = t
handled_table (escaped t) = t

-- A connection that no other session's statements come between.
abbrev pub calm : Reply → List Reply → Wire
calm first replies = record { others = λ k x. x; first_reply = first; replies = replies }

signal_table :
    (signal : Bool) (rec : Recorded) → handled_table (signal_recorded signal rec) ≡ table_of rec
signal_table signal (returned v) = refl
signal_table signal (raised t) = refl

record_outcome-once :
    (release : Bool) (first : Reply) (replies : List Reply) (s : OxTask) (o : Outcome)
    (signal : Bool) (t : Table)
    → AtMostOnce s o t (handled_table (record_outcome release (calm first replies) s o signal t))
unfolding record_outcome
record_outcome-once true first replies s o signal t = inr refl
record_outcome-once false first replies s o signal t =
    rw (signal_table signal (write_outcome_reconnecting s o (λ k x. x) first replies t))
      (reconnecting-AtMostOnce s o first replies t)

module _ (w : Worker) (c : Clock) (first : Reply) (replies : List Reply) (past : ℕ → List OxTask)
    (s : OxTask) (t : Table) (known : IsRead past t s) where
  recorded-steps :
      (policy held : Option AttemptPolicy) (release importable : Bool) (entry : ErrorEntry)
      (d : Decision)
      → decide w policy s ≡ d
      → Each (RowStep past) t (
          handled_table (elim d [
            | propagates ↦ escaped t
            | decided delay declined ↦
                record_outcome release
                  (calm first replies)
                  s
                  (failure_outcome c.process release s entry delay)
                  (finished_signal delay held importable)
                  t
          ]))
  recorded-steps policy held release importable entry propagates e = Each-refl (λ r. inl refl) t
  recorded-steps policy held release importable entry (decided delay declined) e =
      once-steps past s _ t _
        (failure_outcome-Answers w policy s c.process release entry delay declined e) known
        (record_outcome-once release first replies s _ _ t)

  -- Recording a failed attempt, the stuck-thread record included, moves each row by one step of its
  -- life or not at all, however the connection fails under the write.
  pub handle_failure-steps :
      (held : Option AttemptPolicy) (release importable : Bool) (entry : ErrorEntry)
      → Each (RowStep past) t (
          handled_table (handle_failure w c (calm first replies) held release importable s entry t))
  unfolding handle_failure
  handle_failure-steps held release importable entry =
      recorded-steps (policy_for release held s) (policy_for release held s) release importable
        entry _ refl

  -- Recording an attempt, however its body ended and however the connection fails under the write,
  -- leaves the table with each row as it was or one step of its life further, for a row that some
  -- session read and with no other session between the tries.
  pub run_attempt-steps :
      (p : AttemptPolicy) (ending : Ending)
      → Each (RowStep past) t (handled_table (run_attempt w c (calm first replies) p s ending t))
  unfolding run_attempt
  run_attempt-steps p (value v) =
      once-steps past s _ t _ (success v c.process) known
        (record_outcome-once false first replies s (succeeded v s.errors c.process) true t)
  run_attempt-steps p (timed_out e) = handle_failure-steps (some p) false true e
  run_attempt-steps p (errored e) = handle_failure-steps (some p) false true e
  run_attempt-steps p (interrupted e) = elim (Bool-cases p.inline) [
    | inl i ↦ simp i (Each-refl (λ r. inl refl) t)
    | inr i ↦ simp i (handle_failure-steps (some p) false true e)
  ]
