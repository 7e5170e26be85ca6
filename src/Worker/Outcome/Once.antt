-- ===== src/Worker/Outcome/Once.antt =====
-- Worker._write_outcome and _write_outcome_reconnecting: when the write lands, and tries over a failing
-- connection.
use django_ox.Prelude.{
  ℕ, suc, ◌≡◌, ◌≢◌, refl, ◌∙◌, ◌⊎◌, inl, inr, Bool, true, false, List, [], ◌∷◌, ◌==◌, if◌then◌else◌,
  Bool-cases, arith, ◌↔◌,
}
use django_ox.Store.{OxTask, Table, update, matched}
use django_ox.Store.Update.{
  matched-update, matched-none, matched-zero, matched-witness, In-update, update-In,
}
use django_ox.Worker.Outcome.{
  Outcome, succeeded, exhausted, retried, outcome_fields, is_fenced_for, write_outcome,
  holds_outcome, outcome_already_written, Reply, answered, failed_with, Recorded, returned, raised,
  later_tries, try_again, write_outcome_reconnecting, retried_failure, after_failure,
}

-- The write lands exactly when the table has a row that the attempt still holds: its key, its
-- epoch, and a status that an execution may answer.
pub write_outcome-landed_iff :
    (db_task : OxTask) (o : Outcome) (t : Table)
    → ((write_outcome db_task o t).landed ≡ true) ↔ ((matched (is_fenced_for db_task) t) ≢ 0)
unfolding write_outcome
write_outcome-landed_iff db_task o t = (λ h. ground arith, λ h. ground arith)

-- A write that does not land leaves the table and the instance as they were.
pub write_outcome-dropped :
    (db_task : OxTask) (o : Outcome) (t : Table)
    → (write_outcome db_task o t).landed ≡ false
    → ((write_outcome db_task o t).table ≡ t) × ((write_outcome db_task o t).instance_ ≡ db_task)
unfolding write_outcome
write_outcome-dropped db_task o t h =
    ground (arith, matched-update (is_fenced_for db_task) (outcome_fields o) t)

-- After the write no row is fenced for the attempt any more.
closes :
    (db_task : OxTask) (o : Outcome) (r : OxTask)
    → is_fenced_for db_task (if is_fenced_for db_task r then outcome_fields o r else r) ≡ false
unfolding is_fenced_for outcome_fields
closes db_task (succeeded v es at) r = ground arith
closes db_task (exhausted es at e) r = ground arith
closes db_task (retried es at e) r = ground arith

pub write_outcome-table :
    (db_task : OxTask) (o : Outcome) (t : Table)
    → (write_outcome db_task o t).table ≡ update (is_fenced_for db_task) (outcome_fields o) t
unfolding write_outcome
write_outcome-table db_task o t = ground arith

write_closes :
    (db_task : OxTask) (o : Outcome) (t : Table)
    → matched (is_fenced_for db_task) (write_outcome db_task o t).table ≡ 0
write_closes db_task o t = rw (write_outcome-table db_task o t) (
    matched-none (is_fenced_for db_task) _ λ r' m.
      let (r, _, e) = In-update (is_fenced_for db_task) (outcome_fields o) t m in
      rw e (closes db_task o r))

-- Writing the same outcome again changes nothing.
write_again :
    (db_task : OxTask) (o : Outcome) (t : Table)
    → (write_outcome db_task o (write_outcome db_task o t).table).table
      ≡ (write_outcome db_task o t).table
write_again db_task o t =
    write_outcome-table db_task o (write_outcome db_task o t).table
    ∙ matched-update (is_fenced_for db_task) (outcome_fields o) _ (write_closes db_task o t)

-- The two tables that a write over a failing connection may leave.
abbrev pub AtMostOnce : OxTask → Outcome → Table → Table → Type 0
AtMostOnce db_task o t t' = (t' ≡ t) ⊎ (t' ≡ (write_outcome db_task o t).table)

module _ (db_task : OxTask) (o : Outcome) (t : Table) where
  once_more :
      (x : Table)
      → AtMostOnce db_task o t x
      → AtMostOnce db_task o t (write_outcome db_task o x).table
  once_more x (inl e) = inr (rw e)
  once_more x (inr e) = inr (rw e (write_again db_task o t))

  try_again-once :
      (x : Table) → AtMostOnce db_task o t x → AtMostOnce db_task o t (try_again db_task o x).table
  unfolding try_again
  try_again-once x h = elim (Bool-cases (outcome_already_written db_task o x)) [
    | inl e ↦ rw e h
    | inr e ↦ rw e (once_more x h)
  ]

  retried-once :
      (committed : Bool) (x : Table)
      → AtMostOnce db_task o t x
      → AtMostOnce db_task o t (retried_failure committed db_task o x)
  retried-once true x h = try_again-once x h
  retried-once false x h = h

  later-once :
      (k : ℕ) (replies : List Reply) (x : Table)
      → AtMostOnce db_task o t x
      → AtMostOnce db_task o t (later_tries db_task o (λ k x. x) k replies x).table
  unfolding later_tries
  later-once k [] x h = h
  later-once k (answered ∷ rs) x h = try_again-once x h
  later-once k (failed_with committed true ∷ rs) x h =
      later-once (suc k) rs (retried_failure committed db_task o x) (retried-once committed x h)
  later-once k (failed_with committed false ∷ rs) x h = retried-once committed x h

  after-once : (committed : Bool) → AtMostOnce db_task o t (after_failure committed db_task o t)
  after-once true = inr refl
  after-once false = inl refl

-- The table that a recorded or raised end leaves.
abbrev pub table_of : Recorded → Table
table_of (returned v) = v.table
table_of (raised t) = t

-- However the first write and any number of later tries fare, with their replies lost or not, and
-- with no other session between them, the table is the one of no write or of one write.
pub reconnecting-AtMostOnce :
    (db_task : OxTask) (o : Outcome) (first : Reply) (replies : List Reply) (t : Table)
    → AtMostOnce db_task o t
        (table_of (write_outcome_reconnecting db_task o (λ k x. x) first replies t))
unfolding write_outcome_reconnecting
reconnecting-AtMostOnce db_task o answered rs t = inr refl
reconnecting-AtMostOnce db_task o (failed_with committed false) rs t =
    after-once db_task o t committed
reconnecting-AtMostOnce db_task o (failed_with committed true) rs t =
    later-once db_task o t 0 rs _ (after-once db_task o t committed)

holds_after :
    (db_task : OxTask) (o : Outcome) (r : OxTask)
    → is_fenced_for db_task r ≡ true
    → holds_outcome db_task o (outcome_fields o r) ≡ true
unfolding is_fenced_for holds_outcome outcome_fields
holds_after db_task (succeeded v es at) r h = ground arith
holds_after db_task (exhausted es at e) r h = ground arith
holds_after db_task (retried es at e) r h = ground arith

already_after :
    (db_task : OxTask) (o : Outcome) (t : Table)
    → (write_outcome db_task o t).landed ≡ true
    → outcome_already_written db_task o (write_outcome db_task o t).table ≡ true
unfolding outcome_already_written
already_after db_task o t h =
    let (r, m, e) =
      matched-witness (is_fenced_for db_task) t ((write_outcome-landed_iff db_task o t).0 h) in
    let n = update-In (is_fenced_for db_task) (outcome_fields o) m e in
    let z = holds_after db_task o r e in
    rw (write_outcome-table db_task o t)
      (elim (Bool-cases (
        matched (holds_outcome db_task o) (update (is_fenced_for db_task) (outcome_fields o) t)
        == 0)) [
          | inl q ↦ absurd (ground (arith, matched-zero (holds_outcome db_task o) n))
          | inr q ↦ rw q
        ])

-- A write that landed but whose reply was lost with the connection is found on the row by the next
-- try, where no other session came between: the outcome counts as recorded, and the table is the
-- one that the write left.
pub lost_reply_found :
    (db_task : OxTask) (o : Outcome) (replies : List Reply) (t : Table)
    → (write_outcome db_task o t).landed ≡ true
    → write_outcome_reconnecting db_task o (λ k x. x) (failed_with true true) (answered ∷ replies) t
      ≡ returned (record {
        table = (write_outcome db_task o t).table;
        instance_ = outcome_fields o db_task;
        landed = true;
      })
unfolding write_outcome_reconnecting later_tries try_again
lost_reply_found db_task o replies t h = rw (already_after db_task o t h)
