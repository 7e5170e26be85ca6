-- ===== src/Oxpull/Concurrency/Quiet.antt =====
-- What the statements that are not claims do to the number of rows that a concurrency limit counts.
use django_ox.Prelude.{
  ℕ, ◌+◌, ◌≤◌, ◌≡◌, ◌≢◌, refl, ◌⊎◌, Bool, true, List, [], ◌∷◌, ◌++◌, arith, inl, inr, Each, end,
  also, select,
}
use django_ox.Store.{OxTask, Table, update, matched, running}
use django_ox.Worker.Outcome.{outcome_fields}
use django_ox.Worker.Lease.{is_renewed, renewed, requeued, abandoned}
use django_ox.Worker.Recovery.{released}
use django_ox.Actions.{retried_row, expired_row, discarded_row}
use django_ox.Waiting.{released_row, revived_row}
use django_ox.Life.{
  success, final, again, Write, claimed, answered, renewal, requeue, abandonment, unclaimed, retry,
  retry_in_place, expiry, discard, release, revival,
}
use django_ox.Oxpull.Concurrency.{ConcurrencyLimit, covers, is_counted, running_count}

-- Every write of a row's life but the claim.
abbrev pub IsNoClaim : {r r' : OxTask} {past : List OxTask} → Write r past r' → Type 0
IsNoClaim (claimed w c s m h) = ⊥
IsNoClaim w = Unit {0}

covers-eq :
    (limit : ConcurrencyLimit) (r r' : OxTask)
    → r'.task_path ≡ r.task_path
    → r'.queue_name ≡ r.queue_name
    → covers limit r' ≡ covers limit r
unfolding covers
covers-eq limit r r' p q = rw (p, q) refl

-- No other write makes a row count that did not.
Write-counts :
    (limit : ConcurrencyLimit) {r r' : OxTask} {past : List OxTask} (w : Write r past r')
    → IsNoClaim w
    → is_counted limit r' ≡ true
    → is_counted limit r ≡ true
unfolding covers outcome_fields is_renewed renewed requeued abandoned released retried_row
    expired_row discarded_row released_row revived_row
Write-counts limit (claimed w c s m h) n k = elim n [ ]
Write-counts limit (answered s o m (success x at) h) n k = ground arith
Write-counts limit (answered s o m (final e at b) h) n k = ground arith
Write-counts limit (answered s o m (again e at b l) h) n k = ground arith
Write-counts limit (renewal w c pks h) n k = ground arith
Write-counts limit (requeue now c h l) n k = ground arith
Write-counts limit (abandonment c now j note s m e h) n k = ground arith
Write-counts limit (unclaimed w s m h g) n k = ground arith
Write-counts limit (retry s m h) n k = ground arith
Write-counts limit (retry_in_place h) n k = ground arith
Write-counts limit (expiry now h l) n k = ground arith
Write-counts limit (discard now h) n k = ground arith
Write-counts limit (release now h) n k = ground arith
Write-counts limit (revival h) n k = ground arith

-- What the other statements on the table do: writes that are no claims, to any number of rows; a new
-- row, which is not running; or the removal of rows, as by ox_prune.
abbrev pub QuietRow : (ℕ → List OxTask) → OxTask → OxTask → Type 0
QuietRow past r r' = (r' ≡ r) ⊎ ((w : Write r (past r.id) r') × IsNoClaim w)

pub data Quiet (past : ℕ → List OxTask) (t : Table) : Table → Type 0 where
  written : {t' : Table} → Each (QuietRow past) t t' → Quiet past t t'
  inserted : (r : OxTask) → r.status ≢ running → Quiet past t (t ++ r ∷ [])
  removed : (kept : OxTask → Bool) → Quiet past t (select kept t)

matched-Each :
    (past : ℕ → List OxTask) (limit : ConcurrencyLimit) {t t' : Table}
    → Each (QuietRow past) t t'
    → matched (is_counted limit) t' ≤ matched (is_counted limit) t
unfolding matched
matched-Each past limit end = omega arith
matched-Each past limit (also {x} {y} (inl e) es) =
    rw e (ground (arith, matched-Each past limit es))
matched-Each past limit (also {x} {y} (inr (w, n)) es) =
    ground (arith, matched-Each past limit es, Write-counts limit w n)

matched-insert :
    (limit : ConcurrencyLimit) (r : OxTask) (t : Table)
    → r.status ≢ running
    → matched (is_counted limit) (t ++ r ∷ []) ≤ matched (is_counted limit) t
unfolding matched
matched-insert limit r [] h = ground arith
matched-insert limit r (x ∷ t) h = ground (arith, matched-insert limit r t h)

matched-remove :
    (limit : ConcurrencyLimit) (kept : OxTask → Bool) (t : Table)
    → matched (is_counted limit) (select kept t) ≤ matched (is_counted limit) t
unfolding matched
matched-remove limit kept [] = omega arith
matched-remove limit kept (x ∷ t) = ground (arith, matched-remove limit kept t)

pub Quiet-count :
    (past : ℕ → List OxTask) (limit : ConcurrencyLimit) {t t' : Table}
    → Quiet past t t'
    → running_count limit t' ≤ running_count limit t
unfolding running_count
Quiet-count past limit (written es) = matched-Each past limit es
Quiet-count past limit {t} (inserted r h) = matched-insert limit r t h
Quiet-count past limit {t} (removed kept) = matched-remove limit kept t

pub matched-update_le :
    (p v : OxTask → Bool) (f : OxTask → OxTask) (t : Table)
    → matched p (update v f t) ≤ matched p t + matched v t
unfolding matched update
matched-update_le p v f [] = omega arith
matched-update_le p v f (r ∷ t) = ground (arith, matched-update_le p v f t)

pub matched-update_quiet :
    (p v : OxTask → Bool) (f : OxTask → OxTask) (t : Table)
    → ((r : OxTask) → v r ≡ true → p (f r) ≡ true → p r ≡ true)
    → matched p (update v f t) ≤ matched p t
unfolding matched update
matched-update_quiet p v f [] h = omega arith
matched-update_quiet p v f (r ∷ t) h = ground (arith, matched-update_quiet p v f t h, h r)
