-- ===== src/Worker/Recovery.antt =====
-- A claim that raised and may have committed: Worker._release_claim, and the part of
-- _recover_claims that decides from the rows it read which are released.
use django_ox.Prelude.{
  ℕ, zero, suc, ◌+◌, ◌-◌, Bool, true, false, ◌&&◌, ◌||◌, not, Option, none, List, [], ◌∷◌, String,
  ltb, leb, ◌==◌, if◌then◌else◌, select, any, drop_last, length,
}
use text.Mathlib.Text.{◌==◌ as str_eq}
use django_ox.Store.{OxTask, ready, running, status_eq, Table, update, matched}
use django_ox.Worker.{Worker}
pub mod Undo
use django_ox.Worker.Lease.{Attempt, names, owned_by, abandoned_lease_q, Reading}

abbrev pub last_is : String → List String → Bool
last_is name [] = false
last_is name (x ∷ []) = str_eq x name
last_is name (x ∷ y ∷ xs) = last_is name (y ∷ xs)

abbrev pub cleared_if_unstarted : ℕ → Option ℕ → Option ℕ
cleared_if_unstarted zero started = none
cleared_if_unstarted (suc n) started = started

-- The pinned release of one row, `read` as (pk, epoch, attempts, history).
unfoldable pub is_released : Worker → OxTask → OxTask → Bool
is_released w read r =
    r.id == read.id
    && status_eq r.status running
    && owned_by w.worker_id r.locked_by
    && r.lease_epoch == read.lease_epoch

unfoldable pub released : OxTask → OxTask → OxTask
released read r = record r {
  status = ready;
  locked_by = none;
  locked_at = none;
  lease_expires_at = none;
  lease_epoch = read.lease_epoch + 1;
  attempts = read.attempts - 1;
  worker_ids = drop_last read.worker_ids;
  started_at = cleared_if_unstarted (read.attempts - 1) r.started_at;
}

unfoldable pub release_claim : Worker → OxTask → Table → Table × Bool
unfolding is_released released
release_claim w read t = (
  update (is_released w read) (released read) t,
  (if matched (is_released w read) t == 0 then false else true),
)

-- One entry for each attempt, ending with this worker.
unfoldable pub has_whole_history : Worker → OxTask → Bool
has_whole_history w r =
    leb 1 r.attempts && length r.worker_ids == r.attempts && last_is w.worker_id r.worker_ids

-- The rows that the look read and may release: RUNNING under this worker, of no known attempt,
-- with a lease that the reaper would not take and a whole history.
unfoldable pub is_releasable : Worker → Reading → List Attempt → OxTask → Bool
unfolding has_whole_history abandoned_lease_q
is_releasable w now known r =
    status_eq r.status running
    && owned_by w.worker_id r.locked_by
    && not (any (names r.id) known)
    && not (abandoned_lease_q now.now now.cutoff r)
    && has_whole_history w r

unfoldable pub release_each : Worker → (ℕ → Table → Table) → ℕ → List OxTask → Table → Table
unfolding release_claim
release_each w others k [] t = t
release_each w others k (r ∷ rs) t =
    release_each w others (suc k) rs (release_claim w r (others k t)).0

-- The look of _recover_claims once the fence let it use what it read: `others k` is what other
-- sessions do before the k-th release.
unfoldable pub recover_claims :
    Worker → Reading → (known : List Attempt) → (ℕ → Table → Table) → Table → Table
unfolding release_each is_releasable
recover_claims w now known others t =
    release_each w others 0 (select (is_releasable w now known) t) t

-- What a read says of an attempt in _handed_off or _unsettled: its claim is over when the row is
-- at a later epoch, or at this one in another state or under another owner.
unfoldable pub is_over : Worker → Attempt → OxTask → Bool
is_over w (pk, epoch) r =
    r.id == pk
    && (ltb epoch r.lease_epoch
        || (r.lease_epoch == epoch
            && (not (status_eq r.status running) || not (owned_by w.worker_id r.locked_by))))

unfoldable pub still_pending : Worker → Table → List Attempt → List Attempt
unfolding is_over
still_pending w t examined = select (λ a. not (any (is_over w a) t)) examined
