-- ===== src/Oxpull/Concurrency/Turns.antt =====
-- What the workers and the others do about a concurrency limit, statement by statement: _read_running,
-- claim_one and its record.
use django_ox.Prelude.{ℕ, ◌+◌, ◌≡◌, Bool, true, false, some, List, set, get_elem?}
use django_ox.Store.{OxTask, Table, update, matched}
use django_ox.Worker.{Worker, Clock}
use django_ox.Worker.Claim.{claim_fields}
use django_ox.Oxpull.Concurrency.Quiet.{Quiet}
use django_ox.Oxpull.Concurrency.{
  ConcurrencyLimit, covers, ConcurrencyView, begin_read, finish_read, mark_stale,
}

-- Where a worker stands: between claims, between the clearing of the mark and the count, and before
-- its claim.
pub data Phase : Type 0 where
  resting counting ready_to_claim : Phase

-- One statement of one worker, and `mark` by its other threads. A claim is the UPDATE of one row, from
-- the literals of a row as it was read; while the limit blocks, of rows not covered. One that commits
-- and raises, as when the reply is lost, gives claim_one nothing to record: the view stays as it was.
pub data Act (limit : ConcurrencyLimit) (t : Table) (view : ConcurrencyView)
    : Phase → Table → ConcurrencyView → Phase → Type 0 where
  begin : Act limit t view resting t (begin_read view) counting
  finish : Act limit t view counting t (finish_read limit t view) ready_to_claim
  fail : Act limit t view counting t (mark_stale view) resting
  skip : view.stale ≡ false → Act limit t view resting t view ready_to_claim
  claim :
      (w : Worker) (c : Clock) (s : OxTask) (where_ : OxTask → Bool)
      → view.blocked ≡ false
      → matched where_ t ≡ 1
      → Act limit t view ready_to_claim
          (update where_ (claim_fields w c s) t)
          (mark_stale view)
          resting
  claim_and_raise :
      (w : Worker) (c : Clock) (s : OxTask) (where_ : OxTask → Bool)
      → view.blocked ≡ false
      → matched where_ t ≡ 1
      → Act limit t view ready_to_claim (update where_ (claim_fields w c s) t) view resting
  claim_uncovered :
      (w : Worker) (c : Clock) (s : OxTask) (where_ : OxTask → Bool)
      → ((r : OxTask) → where_ r ≡ true → covers limit r ≡ false)
      → Act limit t view ready_to_claim (update where_ (claim_fields w c s) t) view resting
  find_nothing : Act limit t view ready_to_claim t view resting
  mark : (phase : Phase) → Act limit t view phase t (mark_stale view) phase

pub record Member : Type 0 where
  pub view : ConcurrencyView
  pub phase : Phase

pub record Fleet : Type 0 where
  pub table : Table
  pub members : List Member

-- A statement of one of the workers, or of anyone else.
pub data Turn (limit : ConcurrencyLimit) (s : Fleet) : Fleet → Type 0 where
  turn :
      (i : ℕ) (m : Member) {t' : Table} {view' : ConcurrencyView} {phase' : Phase}
      → get_elem? s.members i ≡ some m
      → Act limit s.table m.view m.phase t' view' phase'
      → Turn limit s (record {
        table = t';
        members = set s.members i (record { view = view'; phase = phase' });
      })
  others :
      (past : ℕ → List OxTask) {t' : Table}
      → Quiet past s.table t'
      → Turn limit s (record s { table = t' })

pub data Reach (limit : ConcurrencyLimit) (s : Fleet) : Fleet → Type 0 where
  start : Reach limit s s
  on : {t u : Fleet} → Reach limit s t → Turn limit t u → Reach limit s u

-- The number of claims that committed and raised, of rows that the limit may cover.
abbrev pub unrecorded_by :
    {limit : ConcurrencyLimit} {t t' : Table} {view view' : ConcurrencyView} {phase phase' : Phase}
    → Act limit t view phase t' view' phase'
    → ℕ
    → ℕ
unrecorded_by begin n = n
unrecorded_by finish n = n
unrecorded_by fail n = n
unrecorded_by (skip e) n = n
unrecorded_by (claim w c s where_ e one) n = n
unrecorded_by (claim_and_raise w c s where_ e one) n = n + 1
unrecorded_by (claim_uncovered w c s where_ e) n = n
unrecorded_by find_nothing n = n
unrecorded_by (mark phase) n = n

abbrev pub unrecorded_in : {limit : ConcurrencyLimit} {s t : Fleet} → Turn limit s t → ℕ → ℕ
unrecorded_in (turn i m e a) n = unrecorded_by a n
unrecorded_in (others past q) n = n

abbrev pub unrecorded : {limit : ConcurrencyLimit} {s t : Fleet} → Reach limit s t → ℕ
unrecorded start = 0
unrecorded (on r k) = unrecorded_in k (unrecorded r)
