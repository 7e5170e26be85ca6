-- ===== src/Fleet/Pinned.antt =====
-- What the worker's statements say of the rows that they change, told without their WHERE and SET.
use django_ox.Prelude.{
  ℕ, ◌+◌, ◌-◌, ◌<◌, ◌≡◌, refl, ap, ◌⊎◌, inl, inr, Bool, true, Option, none, some, List, any, Each,
  Bool-cases, arith, String,
}
use text.Mathlib.TextEquality.{eq_iff}
use django_ox.Store.{OxTask, Table, Status, ready, running, lost, status_eq, update}
use django_ox.Store.Update.{update-Each}
use django_ox.Worker.{Worker, Clock}
use django_ox.Worker.Lease.{
  Attempt, names, owned_by, renew_leases, is_renewed, renewed, renewable, is_requeued, requeued,
  is_listed, is_abandoned, abandoned,
}
use django_ox.Worker.Recovery.{is_released, released, release_claim}
use django_ox.Fleet.Statements.{Statement, renews, requeues, abandons, releases, execute}

abbrev pub IsRunning : OxTask → Type 0
IsRunning r = r.status ≡ running

-- The row is back for a claim: at a later epoch and under nobody.
abbrev pub IsReturned : (r r' : OxTask) → Type 0
IsReturned r r' = (r'.status ≡ ready) × (r'.locked_by ≡ none) × (r'.lease_epoch ≡ r.lease_epoch + 1)

-- A renewal is of a row that this worker holds, and of one of its executions: the row stays with it. A
-- requeue is of a RUNNING row with attempts left, and an abandonment of a RUNNING row at the epoch read:
-- it ends as LOST under nobody, at its epoch. A release is of a row that this worker holds at the epoch
-- read: it gives the attempt back.
abbrev pub IsPinned : Worker → Statement → (r r' : OxTask) → Type 0
IsPinned w (renews c in_flight in_callers) r r' =
    IsRunning r
    × (r.locked_by ≡ some w.worker_id)
    × (any (names r.id) (renewable in_flight in_callers) ≡ true)
    × (r'.status ≡ running)
    × (r'.locked_by ≡ some w.worker_id)
    × (r'.lease_epoch ≡ r.lease_epoch)
    × (r'.attempts ≡ r.attempts)
IsPinned w (requeues now cutoff manifest) r r' =
    IsRunning r
    × (r.attempts < r.max_attempts)
    × (is_listed manifest r.id ≡ true)
    × IsReturned r r'
    × (r'.attempts ≡ r.attempts)
IsPinned w (abandons c now cutoff note s) r r' =
    IsRunning r
    × (r.id ≡ s.id)
    × (r.lease_epoch ≡ s.lease_epoch)
    × (r'.status ≡ lost)
    × (r'.locked_by ≡ none)
    × (r'.lease_epoch ≡ s.lease_epoch)
IsPinned w (releases s) r r' =
    IsRunning r
    × (r.locked_by ≡ some w.worker_id)
    × (r.id ≡ s.id)
    × (r.lease_epoch ≡ s.lease_epoch)
    × IsReturned r r'
    × (r'.attempts ≡ s.attempts - 1)

owner : (name : String) (held : Option String) → owned_by name held ≡ true → held ≡ some name
owner name none h = absurd cc
owner name (some x) h = ap some ((eq_iff x name).0 h)

is_running : (s : Status) → status_eq s running ≡ true → s ≡ running
is_running s h = ground arith

renewed-IsPinned :
    (w : Worker) (c : Clock) (fl cl : List Attempt) (r : OxTask)
    → is_renewed w (renewable fl cl) r ≡ true
    → IsPinned w (renews c fl cl) r (renewed w c r)
unfolding is_renewed renewed
renewed-IsPinned w c fl cl r h =
    let run = is_running r.status (ground arith) in
    let mine = owner w.worker_id r.locked_by (ground arith) in
    (run, mine, ground arith, run, mine, refl, refl)

requeued-IsPinned :
    (w : Worker) (now cutoff : ℕ) (manifest : List OxTask) (r : OxTask)
    → is_requeued now cutoff manifest r ≡ true
    → IsPinned w (requeues now cutoff manifest) r (requeued r)
unfolding is_requeued requeued
requeued-IsPinned w now cutoff manifest r h =
    (is_running r.status (ground arith), ground arith, ground arith, (refl, refl, refl), refl)

abandoned-IsPinned :
    (w : Worker) (c : Clock) (now cutoff : ℕ) (note : Option String → String) (s r : OxTask)
    → is_abandoned now cutoff s r ≡ true
    → IsPinned w (abandons c now cutoff note s) r (abandoned c note s r)
unfolding is_abandoned abandoned
abandoned-IsPinned w c now cutoff note s r h =
    let epoch : r.lease_epoch ≡ s.lease_epoch = ground arith in
    (is_running r.status (ground arith), ground arith, epoch, refl, refl, epoch)

released-IsPinned :
    (w : Worker) (s r : OxTask)
    → is_released w s r ≡ true
    → IsPinned w (releases s) r (released s r)
unfolding is_released released
released-IsPinned w s r h =
    let epoch : r.lease_epoch ≡ s.lease_epoch = ground arith in
    (
      is_running r.status (ground arith),
      owner w.worker_id r.locked_by (ground arith),
      ground arith,
      epoch,
      (refl, refl, rw epoch refl),
      refl,
    )

-- An UPDATE whose rows are pinned changes no other row.
update-IsPinned :
    (w : Worker) (st : Statement) (where_ : OxTask → Bool) (set_ : OxTask → OxTask) (t : Table)
    → ((r : OxTask) → where_ r ≡ true → IsPinned w st r (set_ r))
    → Each (λ r r'. (r' ≡ r) ⊎ IsPinned w st r r') t (update where_ set_ t)
update-IsPinned w st where_ set_ t h =
    update-Each where_ set_ t
      λ r m. elim (Bool-cases (where_ r)) [ inl e ↦ rw e (inr (h r e)) | inr e ↦ rw e (inl refl) ]

pub execute-IsPinned :
    (w : Worker) (st : Statement) (t : Table)
    → Each (λ r r'. (r' ≡ r) ⊎ IsPinned w st r r') t (execute w st t)
unfolding renew_leases release_claim
execute-IsPinned w (renews c fl cl) t =
    update-IsPinned w (renews c fl cl) (is_renewed w (renewable fl cl)) (renewed w c) t
      (renewed-IsPinned w c fl cl)
execute-IsPinned w (requeues now cutoff manifest) t =
    update-IsPinned w (requeues now cutoff manifest) (is_requeued now cutoff manifest) requeued t
      (requeued-IsPinned w now cutoff manifest)
execute-IsPinned w (abandons c now cutoff note s) t =
    update-IsPinned w (abandons c now cutoff note s) (is_abandoned now cutoff s)
      (abandoned c note s) t (abandoned-IsPinned w c now cutoff note s)
execute-IsPinned w (releases s) t =
    update-IsPinned w (releases s) (is_released w s) (released s) t (released-IsPinned w s)
