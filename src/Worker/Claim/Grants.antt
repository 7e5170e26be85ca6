-- ===== src/Worker/Claim/Grants.antt =====
-- What Worker.claim_one hands out on a database that skips locked rows.
use django_ox.Prelude.{
  ℕ, ◌≡◌, refl, sym, ◌∙◌, ◌⊎◌, inl, inr, Bool, true, false, ◌&&◌, not, Option, none, some, List, [],
  ◌∷◌, ◌==◌, if◌then◌else◌, In, In-select, select-In, head?-In, Bool-cases, Option-cases, arith,
  select, head?, unsome, none-ne-some, In-sort, sort-In,
}
use django_ox.Store.{OxTask, Table, update}
use django_ox.Store.Update.{UniqueKeys, first-update, by_key, update-cong, unique_row}
use django_ox.Worker.{Worker, Clock}
use django_ox.Worker.Claim.{
  Claim, claim_fields, is_candidate, ready_queryset, take_row, take_locked, claim_one_postgresql,
  claim_skip_locked, claim_one, Database, postgresql_honours_the_claim_filter,
}
use django_ox.Worker.Claim.Order.{sorts_before, order_by-first}

-- The row is eligible, no other session holds it, and no other such row comes before it.
pub record IsNext (hook : Option (OxTask → Bool)) (w : Worker) (now : ℕ) (is_locked : OxTask → Bool)
    (t : Table) (r : OxTask) : Type 0 where
  pub stored : In r t
  pub unlocked : is_locked r ≡ false
  pub eligible : is_candidate hook w now r ≡ true
  pub first_in_order :
      (x : OxTask)
      → In x t
      → is_locked x ≡ false
      → is_candidate hook w now x ≡ true
      → (x ≡ r) ⊎ (sorts_before r x ≡ true)

head-IsNext :
    (hook : Option (OxTask → Bool)) (w : Worker) (now : ℕ) (is_locked : OxTask → Bool) (t : Table)
    (r : OxTask)
    → head? (ready_queryset hook w now (select (λ x. not (is_locked x)) t)) ≡ some r
    → IsNext hook w now is_locked t r
unfolding ready_queryset
head-IsNext hook w now is_locked t r h =
    let candidates = select (is_candidate hook w now) (select (λ x. not (is_locked x)) t) in
    let chosen = In-select _ _ (In-sort sorts_before candidates (head?-In _ h)) in
    let found = In-select _ t chosen.0 in
    record {
      stored = found.0;
      unlocked = ground (arith, found.1);
      eligible = chosen.1;
      first_in_order =
          λ x m u e. order_by-first r x candidates h (select-In _ (select-In _ m (ground arith)) e);
    }

-- What a path that skips locked rows hands out, and that it finds nothing only if nothing is there.
pub record Grants (hook : Option (OxTask → Bool)) (w : Worker) (c : Clock)
    (is_locked : OxTask → Bool) (t : Table) (result : Claim) : Type 0 where
  pub granted :
      (r' : OxTask)
      → result.held ≡ some r'
      → (r : OxTask) × IsNext hook w c.process is_locked t r
        × (r' ≡ claim_fields w c r r)
        × (result.table ≡ update (by_key r.id) (claim_fields w c r) t)
  pub refused :
      result.held ≡ none
      → (result.table ≡ t)
        × ((r : OxTask) → In r t → is_locked r ≡ false → is_candidate hook w c.process r ≡ false)

head-none {ℓ} : {A : Type ℓ} {a : A} (xs : List A) → head? xs ≡ none → In a xs → ⊥
head-none [] h m = elim m [ ]
head-none (x ∷ xs) h m = cc

nothing_next :
    (hook : Option (OxTask → Bool)) (w : Worker) (now : ℕ) (is_locked : OxTask → Bool) (t : Table)
    → head? (ready_queryset hook w now (select (λ x. not (is_locked x)) t)) ≡ none
    → (r : OxTask) → In r t
    → is_locked r ≡ false
    → is_candidate hook w now r ≡ false
unfolding ready_queryset
nothing_next hook w now is_locked t h r m u = elim (Bool-cases (is_candidate hook w now r)) [
  | inl e ↦
      absurd (head-none _ h (sort-In sorts_before (select-In _ (select-In _ m (ground arith)) e)))
  | inr e ↦ e
]

-- The literals of the candidate and the columns of the row itself come to the same.
same_update :
    (w : Worker) (c : Clock) (r : OxTask) (t : Table)
    → UniqueKeys t
    → In r t
    → update (by_key r.id) (λ x. claim_fields w c x x) t
      ≡ update (by_key r.id) (claim_fields w c r) t
same_update w c r t u m =
    update-cong (by_key r.id) (by_key r.id) _ _ t
      λ x n. elim (Bool-cases (x.id == r.id)) [ inl e ↦ rw (unique_row u m n e) | inr e ↦ rw e ]

module _ (w : Worker) (c : Clock) (is_locked : OxTask → Bool) (t : Table) (u : UniqueKeys t) where
  take_row-Grants :
      (hook : Option (OxTask → Bool)) (found : Option OxTask)
      → head? (ready_queryset hook w c.process (select (λ x. not (is_locked x)) t)) ≡ found
      → Grants hook w c is_locked t (take_row w c found t)
  unfolding take_row
  take_row-Grants hook none e = record {
    granted = λ r' h. absurd (cc);
    refused = λ h. (refl, nothing_next hook w c.process is_locked t e);
  }
  take_row-Grants hook (some r) e =
      let n = head-IsNext hook w c.process is_locked t r e in
      let found =
        first-update (λ x. claim_fields w c x x) {r = r} t (unfold claim_fields in refl) u
          n.stored in
      record {
        granted = λ r' h. (r, n, unsome (sym h ∙ found), same_update w c r t u n.stored);
        refused = λ h. absurd (none-ne-some (sym h ∙ found));
      }

  take_locked-Grants :
      (hook : Option (OxTask → Bool)) (found : Option OxTask)
      → head? (ready_queryset hook w c.process (select (λ x. not (is_locked x)) t)) ≡ found
      → Grants hook w c is_locked t (take_locked w c found t)
  unfolding take_locked
  take_locked-Grants hook none e = record {
    granted = λ r' h. absurd (cc);
    refused = λ h. (refl, nothing_next hook w c.process is_locked t e);
  }
  take_locked-Grants hook (some r) e =
      let n = head-IsNext hook w c.process is_locked t r e in
      let found =
        first-update (claim_fields w c r) {r = r} t (unfold claim_fields in refl) u n.stored in
      record {
        granted = λ r' h. (r, n, unsome (sym h ∙ found), refl);
        refused = λ h. absurd (none-ne-some (sym h ∙ found));
      }

-- The hook whose condition the claim puts on its rows.
abbrev pub hook_used : Database → Worker → Option (OxTask → Bool)
hook_used db w =
    if db.is_postgresql && postgresql_honours_the_claim_filter w
    then w.claim_filter_sql
    else w.claim_filter_q

-- On a database that skips locked rows, over a table of unique keys, a claim hands out the first
-- of the eligible rows that no other session holds, as this worker's, and changes that row alone;
-- and it comes back with nothing, changing nothing, only when there is no such row.
pub claim_one-Grants :
    (db : Database) (w : Worker) (c : Clock) (is_locked : OxTask → Bool)
    (others : ℕ → Table → Table) (t : Table)
    → db.has_skip_locked ≡ true
    → UniqueKeys t
    → Grants (hook_used db w) w c is_locked t (claim_one db w c is_locked others t)
unfolding claim_one claim_one_postgresql claim_skip_locked
claim_one-Grants db w c is_locked others t k u = elim (Bool-cases db.is_postgresql) [
  | inl p ↦ elim (Bool-cases (postgresql_honours_the_claim_filter w)) [
    | inl h ↦ rw (p, k, h) (take_row-Grants w c is_locked t u w.claim_filter_sql _ refl)
    | inr h ↦ rw (p, k, h) (take_locked-Grants w c is_locked t u w.claim_filter_q _ refl)
  ]
  | inr p ↦ rw (p, k) (take_locked-Grants w c is_locked t u w.claim_filter_q _ refl)
]

hook_used-passes :
    (db : Database) (w : Worker) (now : ℕ) (p : OxTask → Bool) (r : OxTask)
    → w.claim_filter_q ≡ some p
    → ((q : OxTask → Bool) → w.claim_filter_sql ≡ some q → q r ≡ true → p r ≡ true)
    → is_candidate (hook_used db w) w now r ≡ true
    → p r ≡ true
unfolding is_candidate postgresql_honours_the_claim_filter
hook_used-passes db w now p r e narrow h = elim (Option-cases w.claim_filter_sql) [
  | inl a ↦ ground arith
  | inr (q, a) ↦ ground (arith, narrow q a)
]

-- A worker that overrides claim_filter_q is never handed a row that fails it, on any database that
-- skips locked rows, as long as a claim_filter_sql that it also overrides is no wider.
pub claim_one-honours_filter :
    (db : Database) (w : Worker) (c : Clock) (is_locked : OxTask → Bool)
    (others : ℕ → Table → Table) (t : Table) (p : OxTask → Bool) (r' : OxTask)
    → db.has_skip_locked ≡ true
    → UniqueKeys t
    → w.claim_filter_q ≡ some p
    → ((q : OxTask → Bool) (r : OxTask) → w.claim_filter_sql ≡ some q → q r ≡ true → p r ≡ true)
    → (claim_one db w c is_locked others t).held ≡ some r'
    → (r : OxTask) × In r t × (r' ≡ claim_fields w c r r) × (p r ≡ true)
unfolding is_candidate postgresql_honours_the_claim_filter
claim_one-honours_filter db w c is_locked others t p r' k u e narrow h =
    let (r, n, q, _) = (claim_one-Grants db w c is_locked others t k u).granted r' h in
    (r, n.stored, q, hook_used-passes db w c.process p r e (λ q. narrow q r) n.eligible)
