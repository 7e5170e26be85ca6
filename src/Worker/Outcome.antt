-- ===== src/Worker/Outcome.antt =====
-- Recording how an attempt ended: WRITABLE_STATUSES, Worker._write_outcome,
-- _outcome_already_written and _write_outcome_reconnecting.
use django_ox.Prelude.{
  ℕ, suc, Bool, true, false, ◌&&◌, Option, none, some, List, [], ◌∷◌, String, ◌==◌, if◌then◌else◌,
  is_null,
}
use django_ox.Store.{
  OxTask, ErrorEntry, Status, ready, running, failed, successful, lost, status_eq, statuses_in,
  Table, update, matched,
}
pub mod Once

abbrev pub writable_statuses : List Status
writable_statuses = running ∷ lost ∷ []

-- The three calls of _write_outcome. `handover` is the new lease epoch of the stuck-thread case,
-- `none` where the call leaves the column out.
pub data Outcome : Type 0 where
  succeeded : String → List ErrorEntry → ℕ → Outcome
  exhausted : List ErrorEntry → ℕ → Option ℕ → Outcome
  retried : List ErrorEntry → ℕ → Option ℕ → Outcome

abbrev pub outcome_status : Outcome → Status
outcome_status (succeeded v es at) = successful
outcome_status (exhausted es at e) = failed
outcome_status (retried es at e) = ready

abbrev pub epoch_or : Option ℕ → ℕ → ℕ
epoch_or none e = e
epoch_or (some n) e = n

-- The columns that the call sets, status included.
unfoldable pub outcome_fields : Outcome → OxTask → OxTask
outcome_fields (succeeded v es at) r = record r {
  status = successful;
  return_value = some v;
  errors = es;
  finished_at = some at;
  locked_by = none;
  locked_at = none;
  lease_expires_at = none;
}
outcome_fields (exhausted es at e) r = record r {
  status = failed;
  errors = es;
  finished_at = some at;
  locked_by = none;
  locked_at = none;
  lease_expires_at = none;
  lease_epoch = epoch_or e r.lease_epoch;
}
outcome_fields (retried es at e) r = record r {
  status = ready;
  errors = es;
  run_after = some at;
  locked_by = none;
  locked_at = none;
  lease_expires_at = none;
  lease_epoch = epoch_or e r.lease_epoch;
}

-- The fence: this task, at the epoch its claim handed out, in a state an execution may answer.
unfoldable pub is_fenced_for : OxTask → OxTask → Bool
is_fenced_for db_task r =
    r.id == db_task.id
    && r.lease_epoch == db_task.lease_epoch
    && statuses_in writable_statuses r.status

-- The table, the instance that mirrors what was stored, and the call's answer.
pub record Written : Type 0 where
  pub table : Table
  pub instance_ : OxTask
  pub landed : Bool

unfoldable pub write_outcome : OxTask → Outcome → Table → Written
unfolding is_fenced_for outcome_fields
write_outcome db_task o t =
    if matched (is_fenced_for db_task) t == 0
    then record {
      table = update (is_fenced_for db_task) (outcome_fields o) t;
      instance_ = db_task;
      landed = false;
    }
    else record {
      table = update (is_fenced_for db_task) (outcome_fields o) t;
      instance_ = outcome_fields o db_task;
      landed = true;
    }

abbrev pub is_at : ℕ → Option ℕ → Bool
is_at n none = false
is_at n (some m) = m == n

abbrev pub unlocked : OxTask → Bool
unlocked r = is_null r.locked_by && is_null r.locked_at && is_null r.lease_expires_at

-- _outcome_already_written: status, epoch, and every column the write set but the JSON ones.
unfoldable pub holds_outcome : OxTask → Outcome → OxTask → Bool
holds_outcome db_task (succeeded v es at) r =
    r.id == db_task.id
    && status_eq r.status successful
    && r.lease_epoch == db_task.lease_epoch
    && is_at at r.finished_at
    && unlocked r
holds_outcome db_task (exhausted es at e) r =
    r.id == db_task.id
    && status_eq r.status failed
    && r.lease_epoch == epoch_or e db_task.lease_epoch
    && is_at at r.finished_at
    && unlocked r
holds_outcome db_task (retried es at e) r =
    r.id == db_task.id
    && status_eq r.status ready
    && r.lease_epoch == epoch_or e db_task.lease_epoch
    && is_at at r.run_after
    && unlocked r

unfoldable pub outcome_already_written : OxTask → Outcome → Table → Bool
unfolding holds_outcome
outcome_already_written db_task o t =
    if matched (holds_outcome db_task o) t == 0 then false else true

-- How a write over a failing connection ends. A failure says whether the server had committed the
-- write, and whether it earns a further try: for the first write, that its connection is gone;
-- for a later one, that its connect was refused with a delay left to wait out.
pub data Reply : Type 0 where
  answered : Reply
  failed_with : (committed again : Bool) → Reply

-- The answer of the method, or the error that it raises.
pub data Recorded : Type 0 where
  returned : Written → Recorded
  raised : Table → Recorded

abbrev pub after_failure : Bool → OxTask → Outcome → Table → Table
after_failure true db_task o t = (write_outcome db_task o t).table
after_failure false db_task o t = t

-- One later try: first whether the row already holds the write, then the write.
unfoldable pub try_again : OxTask → Outcome → Table → Written
unfolding outcome_already_written write_outcome
try_again db_task o t =
    if outcome_already_written db_task o t
    then record { table = t; instance_ = outcome_fields o db_task; landed = true }
    else write_outcome db_task o t

abbrev pub unrecorded : OxTask → Table → Written
unrecorded db_task t = record { table = t; instance_ = db_task; landed = false }

-- A later try that fails after its write committed had not found the write on the row.
abbrev pub retried_failure : Bool → OxTask → Outcome → Table → Table
retried_failure true db_task o t = (try_again db_task o t).table
retried_failure false db_task o t = t

-- The `while True` loop over the later tries; `others k` is what other sessions do before try k.
-- A list that runs out stands for a try that fails for good.
unfoldable pub later_tries :
    OxTask → Outcome → (ℕ → Table → Table) → ℕ → List Reply → Table → Written
later_tries db_task o others k [] t = unrecorded db_task (others k t)
later_tries db_task o others k (answered ∷ rs) t = try_again db_task o (others k t)
later_tries db_task o others k (failed_with committed true ∷ rs) t =
    later_tries db_task o others (suc k) rs (retried_failure committed db_task o (others k t))
later_tries db_task o others k (failed_with committed false ∷ rs) t =
    unrecorded db_task (retried_failure committed db_task o (others k t))

unfoldable pub write_outcome_reconnecting :
    OxTask → Outcome → (ℕ → Table → Table) → Reply → List Reply → Table → Recorded
unfolding later_tries try_again write_outcome
write_outcome_reconnecting db_task o others answered rs t = returned (write_outcome db_task o t)
write_outcome_reconnecting db_task o others (failed_with committed false) rs t =
    raised (after_failure committed db_task o t)
write_outcome_reconnecting db_task o others (failed_with committed true) rs t =
    returned (later_tries db_task o others 0 rs (after_failure committed db_task o t))
