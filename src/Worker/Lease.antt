-- ===== src/Worker/Lease.antt =====
-- Keeping and taking away leases: Worker._renewable and renew_leases, and the reaper, reap,
-- _abandoned_lease_q, _requeue_abandoned and _abandon_exhausted.
use django_ox.Prelude.{
  ℕ, suc, ◌+◌, ◌-◌, Bool, true, false, ◌&&◌, ◌||◌, not, Option, none, some, List, [], ◌∷◌, ◌++◌,
  String, ltb, leb, ◌==◌, if◌then◌else◌, select, take, any, null_lt, null_le, is_null, sort,
}
use text.Mathlib.Text.{◌==◌ as str_eq}
use django_ox.Store.{OxTask, ready, running, lost, status_eq, Table, update, matched}
use django_ox.Worker.{Worker, Clock, lease_expiry}
pub mod Expiry
pub mod Reaper

-- An execution: the row's key and the epoch its claim was granted.
abbrev pub Attempt : Type 0
Attempt = ℕ × ℕ

abbrev pub same_attempt : Attempt → Attempt → Bool
same_attempt (p, e) (q, f) = p == q && e == f

-- `latest[pk] = max(epoch, latest.get(pk, epoch))`.
unfoldable pub keep_latest : Attempt → List Attempt → List Attempt
keep_latest (pk, epoch) [] = (pk, epoch) ∷ []
keep_latest (pk, epoch) ((q, f) ∷ rest) =
    if q == pk
    then (q, if ltb epoch f then f else epoch) ∷ rest
    else (q, f) ∷ keep_latest (pk, epoch) rest

unfoldable pub latest_of : List Attempt → List Attempt → List Attempt
unfolding keep_latest
latest_of [] latest = latest
latest_of (a ∷ rest) latest = latest_of rest (keep_latest a latest)

-- _renewable: the attempts whose rows are renewed, one for each row.
unfoldable pub renewable : (in_flight in_callers_atomic_block : List Attempt) → List Attempt
unfolding latest_of
renewable in_flight in_callers =
    select (λ a. not (any (same_attempt a) in_callers)) (latest_of in_flight [])

abbrev pub owned_by : String → Option String → Bool
owned_by w none = false
owned_by w (some name) = str_eq name w

abbrev pub names : ℕ → Attempt → Bool
names pk (q, e) = q == pk

-- The WHERE and the SET of renew_leases.
unfoldable pub is_renewed : Worker → List Attempt → OxTask → Bool
is_renewed w pks r =
    any (names r.id) pks && status_eq r.status running && owned_by w.worker_id r.locked_by

unfoldable pub renewed : Worker → Clock → OxTask → OxTask
renewed w c r = record r {
  locked_at = some c.lease;
  lease_expires_at = some (lease_expiry c w.lock_timeout);
}

unfoldable pub renew_leases : Worker → Clock → List Attempt → List Attempt → Table → Table × ℕ
unfolding is_renewed renewed
renew_leases w c in_flight in_callers t =
    let pks = renewable in_flight in_callers in
    (update (is_renewed w pks) (renewed w c) t, matched (is_renewed w pks) t)

-- _abandoned_lease_q, in which a comparison with NULL is not true.
unfoldable pub abandoned_lease_q : (now cutoff : ℕ) → OxTask → Bool
abandoned_lease_q now cutoff r =
    (null_lt r.lease_expires_at now
      && (null_le r.locked_at r.lease_expires_at || null_lt r.locked_at cutoff))
    || (is_null r.lease_expires_at && null_lt r.locked_at cutoff)

abbrev pub is_stuck : (now cutoff : ℕ) → OxTask → Bool
is_stuck now cutoff r = abandoned_lease_q now cutoff r && status_eq r.status running

-- ORDER BY id.
abbrev pub order_by_id : List OxTask → List OxTask
order_by_id = sort (λ a b. leb a.id b.id)

abbrev pub is_listed : List OxTask → ℕ → Bool
is_listed rows pk = any (λ m. m.id == pk) rows

abbrev pub has_attempts_left : OxTask → Bool
has_attempts_left r = ltb r.attempts r.max_attempts

unfoldable pub requeued : OxTask → OxTask
requeued r = record r {
  status = ready;
  locked_by = none;
  locked_at = none;
  lease_expires_at = none;
  lease_epoch = r.lease_epoch + 1;
}

-- The conditional UPDATE of _requeue_abandoned, restricted to the rows of the manifest.
unfoldable pub is_requeued : (now cutoff : ℕ) → List OxTask → OxTask → Bool
unfolding abandoned_lease_q
is_requeued now cutoff manifest r =
    is_stuck now cutoff r && has_attempts_left r && is_listed manifest r.id

-- The reaper's time at each of its statements: the lease clock, and the cutoff it derives.
pub record Reading : Type 0 where
  pub now : ℕ
  pub cutoff : ℕ

-- The manifest is read at one instant and the UPDATE made at another, with `others` in between.
unfoldable pub requeue_abandoned :
    Worker → (read write : Reading) → (others : Table → Table) → Table → Table × ℕ
unfolding is_requeued requeued sort
requeue_abandoned w read write others t =
    let manifest =
      take w.reap_batch
        (order_by_id (select (λ r. is_stuck read.now read.cutoff r && has_attempts_left r) t)) in
    elim manifest [
      | [] ↦ (t, 0)
      | m ∷ ms ↦ (
        update (is_requeued write.now write.cutoff (m ∷ ms)) requeued (others t),
        matched (is_requeued write.now write.cutoff (m ∷ ms)) (others t),
      )
    ]

-- The UPDATE of _abandon_exhausted for one row as it was read.
unfoldable pub is_abandoned : (now cutoff : ℕ) → OxTask → OxTask → Bool
unfolding abandoned_lease_q
is_abandoned now cutoff db_task r =
    abandoned_lease_q now cutoff r
    && r.id == db_task.id
    && status_eq r.status running
    && r.lease_epoch == db_task.lease_epoch

-- The entry names the holder that went quiet; `note` is its text.
unfoldable pub abandoned : Clock → (Option String → String) → OxTask → OxTask → OxTask
abandoned c note db_task r = record r {
  status = lost;
  locked_by = none;
  locked_at = none;
  lease_expires_at = none;
  finished_at = some c.process;
  errors =
      db_task.errors
      ++ record {
        exception_class_path = "django_ox.exceptions.TaskAbandoned";
        traceback = note db_task.locked_by;
      }
        ∷ [];
}

-- One UPDATE for each candidate; `others k` is what other sessions do before the k-th, and
-- `clocks k` and `readings k` are the times that it reads.
unfoldable pub abandon_each :
    (clocks : ℕ → Clock) (readings : ℕ → Reading)
    → (Option String → String)
    → (ℕ → Table → Table)
    → ℕ
    → List OxTask
    → Table
    → Table × ℕ
unfolding is_abandoned abandoned
abandon_each clocks readings note others k [] t = (t, 0)
abandon_each clocks readings note others k (db_task ∷ rest) t =
    let before = others k t in
    let where_ = is_abandoned (readings k).now (readings k).cutoff db_task in
    let after = update where_ (abandoned (clocks k) note db_task) before in
    let (t', n) = abandon_each clocks readings note others (suc k) rest after in
    (t', (if matched where_ before == 0 then 0 else 1) + n)

unfoldable pub abandon_exhausted :
    Worker
    → (clocks : ℕ → Clock) (read : Reading) (readings : ℕ → Reading) → (Option String → String)
    → (ℕ → Table → Table)
    → Table
    → Table × ℕ
unfolding abandon_each sort abandoned_lease_q
abandon_exhausted w clocks read readings note others t =
    let candidates = take w.reap_batch (
      order_by_id
        (select (λ r. is_stuck read.now read.cutoff r && leb r.max_attempts r.attempts) t)) in
    abandon_each clocks readings note others 0 candidates t

-- `cutoff` is _lease_now() less this worker's own timeout. With USE_TZ both times are expressions
-- that the database evaluates in each statement; without it they are the values that the process
-- read: the cutoff when the pass began, the other when the condition was built.
unfoldable pub reading : (use_tz : Bool) → Worker → (began built made : Clock) → Reading
reading true w began built made = record { now = made.lease; cutoff = made.lease - w.lock_timeout }
reading false w began built made = record {
  now = built.lease;
  cutoff = began.lease - w.lock_timeout;
}

-- reap: `clocks k` is the time at its k-th statement, the two reads and the requeue first.
unfoldable pub reap :
    (use_tz : Bool)
    → Worker
    → (clocks : ℕ → Clock) → (Option String → String)
    → (between : Table → Table) → (ℕ → Table → Table)
    → Table
    → Table × ℕ
unfolding reading requeue_abandoned abandon_exhausted
reap use_tz w clocks note between others t =
    let at = λ (k : ℕ). reading use_tz w (clocks 0) (clocks 0) (clocks k) in
    let built = λ (k : ℕ). reading use_tz w (clocks 0) (clocks (k + 3)) (clocks (k + 3)) in
    let (t1, n) = requeue_abandoned w (at 0) (at 1) between t in
    let (t2, m) = abandon_exhausted w (λ k. clocks (k + 3)) (at 2) built note others t1 in
    (t2, n + m)
