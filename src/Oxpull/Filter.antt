-- ===== src/Oxpull/Filter.antt =====
-- src/oxpull/worker.py: what a worker of oxpull adds to the condition of a claim.
use django_ox.Prelude.{
  ℕ, ◌≡◌, refl, Bool, true, false, ◌&&◌, not, Option, none, some, List, [], ◌∷◌, ◌++◌, String, In,
  is_null, if◌then◌else◌, Option-cases, Bool-cases, inl, inr, arith,
}
use django_ox.Store.{OxTask, Table}
use django_ox.Store.Update.{UniqueKeys}
use django_ox.Worker.{Worker, Clock, contains}
use django_ox.Worker.Claim.{
  Database, claim_one, claim_fields, passes, is_candidate, postgresql_honours_the_claim_filter,
}
use django_ox.Worker.Claim.Grants.{claim_one-Grants, hook_used}

-- What a refresh left: the gate of the workflows where it is configured, and the names that the rate
-- and concurrency limits block.
pub record Blocks : Type 0 where
  pub workflows : Option (OxTask → Bool)
  pub blocked_paths : List String
  pub blocked_queues : List String
  pub concurrency_paths : List String
  pub concurrency_queues : List String

-- _excluded.
abbrev pub excluded_paths : Blocks → List String
excluded_paths b = b.blocked_paths ++ b.concurrency_paths

abbrev pub excluded_queues : Blocks → List String
excluded_queues b = b.blocked_queues ++ b.concurrency_queues

abbrev pub is_nil {ℓ} : {A : Type ℓ} → List A → Bool
is_nil [] = true
is_nil (x ∷ xs) = false

-- Whether a limit or the gate of the workflows holds the row back.
unfoldable pub is_admitted : Blocks → OxTask → Bool
is_admitted b r =
    passes b.workflows r
    && not (contains (excluded_paths b) r.task_path)
    && not (contains (excluded_queues b) r.queue_name)

-- _oxpull_condition_q, which _oxpull_condition_sql says again in SQL.
unfoldable pub oxpull_condition_q : Blocks → Option (OxTask → Bool)
oxpull_condition_q b =
    if is_null b.workflows && is_nil (excluded_paths b) && is_nil (excluded_queues b)
    then none
    else some (is_admitted b)

abbrev pub both : Option (OxTask → Bool) → Option (OxTask → Bool) → Option (OxTask → Bool)
both none q = q
both (some p) none = some p
both (some p) (some q) = some (λ r. p r && q r)

-- _q_with_oxpull_conditions.
unfoldable pub q_with_oxpull_conditions : Worker → Blocks → Option (OxTask → Bool)
q_with_oxpull_conditions w b = both w.claim_filter_q (oxpull_condition_q b)

-- _sql_with_oxpull_conditions: an empty fragment is none.
unfoldable pub sql_with_oxpull_conditions : Worker → Blocks → Option (OxTask → Bool)
sql_with_oxpull_conditions w b =
    if is_null w.claim_filter_sql && not (is_null w.claim_filter_q)
    then none
    else both w.claim_filter_sql (oxpull_condition_q b)

-- The worker with the two hooks bound on the instance.
abbrev pub oxpull_worker : Worker → Blocks → Worker
oxpull_worker w b = record w {
  claim_filter_q = q_with_oxpull_conditions w b;
  claim_filter_sql = sql_with_oxpull_conditions w b;
}

passes-both :
    (p q : Option (OxTask → Bool)) (r : OxTask) → passes (both p q) r ≡ (passes p r && passes q r)
passes-both none q r = refl
passes-both (some p) none r = ground arith
passes-both (some p) (some q) r = refl

is_nil-contains : (xs : List String) (s : String) → is_nil xs ≡ true → contains xs s ≡ false
is_nil-contains [] s h = refl
is_nil-contains (x ∷ xs) s h = cc

is_null-passes : (p : Option (OxTask → Bool)) (r : OxTask) → is_null p ≡ true → passes p r ≡ true
is_null-passes none r h = refl
is_null-passes (some p) r h = cc

-- Leaving the condition out where nothing is configured or blocked loses nothing.
passes-condition : (b : Blocks) (r : OxTask) → passes (oxpull_condition_q b) r ≡ is_admitted b r
unfolding oxpull_condition_q is_admitted
passes-condition b r =
    elim (Bool-cases
      (is_null b.workflows && is_nil (excluded_paths b) && is_nil (excluded_queues b))) [
        | inr e ↦ rw e refl
        | inl e ↦ rw e (
            ground (
              arith,
              is_null-passes b.workflows r,
              is_nil-contains (excluded_paths b) r.task_path,
              is_nil-contains (excluded_queues b) r.queue_name,
            ))
      ]

both-some : (p : OxTask → Bool) (q : Option (OxTask → Bool)) → is_null (both (some p) q) ≡ false
both-some p none = refl
both-some p (some q) = refl

admitted_both :
    (p : Option (OxTask → Bool)) (b : Blocks) (r : OxTask)
    → passes (both p (oxpull_condition_q b)) r ≡ true
    → (is_admitted b r ≡ true) × (passes p r ≡ true)
admitted_both p b r h =
    let split = passes-both p (oxpull_condition_q b) r in
    let condition = passes-condition b r in (ground arith, ground arith)

-- The fragment is in use only where it carries both conditions.
sql-admits :
    (w : Worker) (b : Blocks) (r : OxTask)
    → ((q : OxTask → Bool)
        → w.claim_filter_sql ≡ some q
        → q r ≡ true
        → passes w.claim_filter_q r ≡ true)
    → postgresql_honours_the_claim_filter (oxpull_worker w b) ≡ true
    → passes (sql_with_oxpull_conditions w b) r ≡ true
    → (is_admitted b r ≡ true) × (passes w.claim_filter_q r ≡ true)
unfolding postgresql_honours_the_claim_filter q_with_oxpull_conditions sql_with_oxpull_conditions
sql-admits w b r narrow honours h = elim (Option-cases w.claim_filter_sql) [
  | inr (s, e) ↦ let (a, f) = admitted_both (some s) b r (rw e at h) in (a, narrow s e f)
  | inl e ↦ elim (Option-cases w.claim_filter_q) [
    | inl n ↦ rw n (admitted_both none b r (rw (e, n) at h))
    | inr (p, n) ↦ absurd (let x = rw (e, n, both-some p (oxpull_condition_q b)) at honours in cc)
  ]
]

-- What the hook in use lets through, both conditions do.
hook_used-admits :
    (db : Database) (w : Worker) (b : Blocks) (r : OxTask)
    → ((q : OxTask → Bool)
        → w.claim_filter_sql ≡ some q
        → q r ≡ true
        → passes w.claim_filter_q r ≡ true)
    → passes (hook_used db (oxpull_worker w b)) r ≡ true
    → (is_admitted b r ≡ true) × (passes w.claim_filter_q r ≡ true)
unfolding q_with_oxpull_conditions
hook_used-admits db w b r narrow h =
    elim (Bool-cases
      (db.is_postgresql && postgresql_honours_the_claim_filter (oxpull_worker w b))) [
        | inl e ↦ sql-admits w b r narrow (ground arith) (rw e at h)
        | inr e ↦ admitted_both w.claim_filter_q b r (rw e at h)
      ]

-- A worker of oxpull whose claim_filter_sql, where its class has one, is no wider than its
-- claim_filter_q, over unique keys on a database that skips locked rows: no claim path hands out a row
-- that a limit blocks or a workflow holds back, or that the class's own condition refuses.
pub claims_only_admitted :
    (db : Database) (w : Worker) (b : Blocks) (c : Clock) (is_locked : OxTask → Bool)
    (others : ℕ → Table → Table) (t : Table) (r' : OxTask)
    → db.has_skip_locked ≡ true
    → UniqueKeys t
    → ((q : OxTask → Bool) (r : OxTask)
        → w.claim_filter_sql ≡ some q
        → q r ≡ true
        → passes w.claim_filter_q r ≡ true)
    → (claim_one db (oxpull_worker w b) c is_locked others t).held ≡ some r'
    → (r : OxTask) × In r t
      × (r' ≡ claim_fields (oxpull_worker w b) c r r)
      × (is_admitted b r ≡ true)
      × (passes w.claim_filter_q r ≡ true)
unfolding is_candidate
claims_only_admitted db w b c is_locked others t r' k u narrow h =
    let (r, n, q, _) =
      (claim_one-Grants db (oxpull_worker w b) c is_locked others t k u).granted r' h in
    let e : passes (hook_used db (oxpull_worker w b)) r ≡ true = ground (arith, n.eligible) in
    let (a, f) = hook_used-admits db w b r (λ q. narrow q r) e in (r, n.stored, q, a, f)
