-- ===== src/Worker/Claim.antt =====
-- Claiming a task: Worker._ready_queryset, _claim_fields, the three paths of _claim_one, and
-- _reload_claimed. Other sessions appear as the rows they hold locked, on the paths that skip
-- those, and as what they do to the table between two statements, on the path that has no locks.
use django_ox.Prelude.{
  ℕ, suc, ◌+◌, Bool, true, false, ◌&&◌, ◌||◌, not, Option, none, some, List, [], ◌∷◌, ◌++◌, String,
  leb, ◌==◌, if◌then◌else◌, select, head?, take, is_null, sort,
}
use django_ox.Store.{OxTask, ready, running, status_eq, Table, update, matched, first}
use django_ox.Worker.{Worker, Clock, lease_expiry, contains}
pub mod Order
pub mod Grants
pub mod Alone

-- run_after IS NULL OR run_after <= now.
abbrev pub is_due : ℕ → Option ℕ → Bool
is_due now none = true
is_due now (some at) = leb at now

-- An empty `queues` restricts nothing.
abbrev pub in_queues : List String → String → Bool
in_queues [] name = true
in_queues (q ∷ qs) name = contains (q ∷ qs) name

abbrev pub passes : Option (OxTask → Bool) → OxTask → Bool
passes none r = true
passes (some p) r = p r

-- The conditions of _ready_queryset and of POSTGRES_CLAIM_SQL, which differ in the hook they read.
unfoldable pub is_candidate : Option (OxTask → Bool) → Worker → ℕ → OxTask → Bool
is_candidate hook w now r =
    status_eq r.status ready
    && is_due now r.run_after
    && in_queues w.queues r.queue_name
    && passes hook r

unfoldable pub ready_queryset : Option (OxTask → Bool) → Worker → ℕ → Table → List OxTask
unfolding sort
ready_queryset hook w now t = Order.order_by (select (is_candidate hook w now) t)

-- `candidate.started_at or _lease_now()`.
abbrev pub or_now : Option ℕ → ℕ → Option ℕ
or_now none now = some now
or_now (some at) now = some at

-- _claim_fields: literals computed from the row as it was read.
unfoldable pub claim_fields : Worker → Clock → OxTask → OxTask → OxTask
claim_fields w c candidate r = record r {
  status = running;
  locked_by = some w.worker_id;
  locked_at = some c.lease;
  lease_expires_at = some (lease_expiry c w.lock_timeout);
  lease_epoch = candidate.lease_epoch + 1;
  attempts = candidate.attempts + 1;
  started_at = or_now candidate.started_at c.lease;
  last_attempted_at = some c.lease;
  worker_ids = candidate.worker_ids ++ w.worker_id ∷ [];
}

abbrev pub has_pk : ℕ → OxTask → Bool
has_pk pk r = r.id == pk

-- What a claim leaves: the table, the row it hands out, and whether it set _claim_contended.
pub record Claim : Type 0 where
  pub table : Table
  pub held : Option OxTask
  pub contended : Bool

-- The one UPDATE of POSTGRES_CLAIM_SQL, for the candidate of its subselect; SET reads the row
-- itself, so the literals are those of the row.
unfoldable pub take_row : Worker → Clock → Option OxTask → Table → Claim
take_row w c none t = record { table = t; held = none; contended = false }
take_row w c (some candidate) t =
    let t' = update (has_pk candidate.id) (λ r. claim_fields w c r r) t in
    record { table = t'; held = first (has_pk candidate.id) t'; contended = false }

unfoldable pub claim_one_postgresql : Worker → Clock → (OxTask → Bool) → Table → Claim
unfolding take_row ready_queryset
claim_one_postgresql w c is_locked t =
    take_row w c
      (head? (ready_queryset w.claim_filter_sql w c.process (select (λ r. not (is_locked r)) t))) t

-- The transaction of the SKIP LOCKED path: the row is locked from the read to the re-read.
unfoldable pub take_locked : Worker → Clock → Option OxTask → Table → Claim
take_locked w c none t = record { table = t; held = none; contended = false }
take_locked w c (some candidate) t =
    let t' = update (has_pk candidate.id) (claim_fields w c candidate) t in
    record { table = t'; held = first (has_pk candidate.id) t'; contended = false }

unfoldable pub claim_skip_locked : Worker → Clock → (OxTask → Bool) → Table → Claim
unfolding take_locked ready_queryset
claim_skip_locked w c is_locked t =
    take_locked w c
      (head? (ready_queryset w.claim_filter_q w c.process (select (λ r. not (is_locked r)) t))) t

-- The WHERE of the optimistic UPDATE.
abbrev pub unmoved : OxTask → OxTask → Bool
unmoved candidate r =
    r.id == candidate.id
    && status_eq r.status ready
    && r.attempts == candidate.attempts
    && r.lease_epoch == candidate.lease_epoch

-- _reload_claimed: the row, pinned to the epoch that was granted.
unfoldable pub reload_claimed : ℕ → ℕ → Table → Option OxTask
reload_claimed pk granted_epoch t = first (λ r. r.id == pk && r.lease_epoch == granted_epoch) t

-- One candidate: other sessions write before its UPDATE and again before the re-read.
unfoldable pub try_candidate : Worker → Clock → (ℕ → Table → Table) → ℕ → OxTask → Table → Claim
unfolding reload_claimed
try_candidate w c others k candidate t =
    let t1 = others k t in
    let t2 = update (unmoved candidate) (claim_fields w c candidate) t1 in
    let t3 = others (suc k) t2 in
    if matched (unmoved candidate) t1 == 0
    then record { table = t1; held = none; contended = false }
    else record {
      table = t3;
      held = reload_claimed candidate.id (candidate.lease_epoch + 1) t3;
      contended = false;
    }

abbrev pub continue_with : Claim → (Table → Claim) → Claim
continue_with r next = elim r.held [ some row ↦ r | none ↦ next r.table ]

-- The loop over the candidates read; `others k` is what other sessions do before statement k.
unfoldable pub try_candidates :
    Worker → Clock → (ℕ → Table → Table) → ℕ → List OxTask → Table → Claim
try_candidates w c others k [] t = record { table = t; held = none; contended = false }
try_candidates w c others k (candidate ∷ rest) t =
    continue_with (try_candidate w c others k candidate t)
      (try_candidates w c others (suc (suc k)) rest)

abbrev pub claim_batch_size : ℕ
claim_batch_size = 5

-- _claim_contended is set when rows were read and every one of them went to another claimer.
abbrev pub note_contended : List OxTask → Claim → Claim
note_contended [] r = r
note_contended (x ∷ xs) r = elim r.held [ some row ↦ r | none ↦ record r { contended = true } ]

unfoldable pub claim_optimistic : Worker → Clock → (ℕ → Table → Table) → Table → Claim
unfolding try_candidates ready_queryset
claim_optimistic w c others t =
    let read = take claim_batch_size (ready_queryset w.claim_filter_q w c.process t) in
    note_contended read (try_candidates w c others 0 read t)

-- What _claim_one asks of the connection.
pub record Database : Type 0 where
  pub is_postgresql : Bool
  pub has_skip_locked : Bool

-- _postgresql_honours_the_claim_filter, without the notice it logs.
unfoldable pub postgresql_honours_the_claim_filter : Worker → Bool
postgresql_honours_the_claim_filter w = is_null w.claim_filter_q || not (is_null w.claim_filter_sql)

unfoldable pub claim_one :
    Database → Worker → Clock → (OxTask → Bool) → (ℕ → Table → Table) → Table → Claim
claim_one db w c is_locked others t =
    if db.is_postgresql && db.has_skip_locked && postgresql_honours_the_claim_filter w
    then claim_one_postgresql w c is_locked t
    else if db.has_skip_locked
    then claim_skip_locked w c is_locked t
    else claim_optimistic w c others t
