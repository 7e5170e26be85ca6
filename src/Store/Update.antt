-- ===== src/Store/Update.antt =====
-- What a conditional UPDATE does to a table whose primary keys are unique, and what a read finds.
use django_ox.Prelude.{
  ℕ, suc, length, ◌≡◌, ◌≢◌, refl, ap, Bool, true, false, some, [], ◌∷◌, arith, inl, inr,
  if◌then◌else◌, ◌==◌, All, All-In, In, here, there, Each, end, also, Bool-cases, In-cons,
}
use mathlib.Core.Path.{ap₂}
use django_ox.Store.{OxTask, Table, update, matched, first}

-- An UPDATE that matches no row leaves the table as it was.
pub matched-update :
    (w : OxTask → Bool) (s : OxTask → OxTask) (t : Table) → matched w t ≡ 0 → update w s t ≡ t
unfolding update matched
matched-update w s [] h = refl
matched-update w s (r ∷ t) h = ground (arith, matched-update w s t)

-- An UPDATE acts on each row of the table by itself.
pub update-Each {κ} :
    {R : OxTask → OxTask → Type κ} (w : OxTask → Bool) (s : OxTask → OxTask) (t : Table)
    → ((r : OxTask) → In r t → R r (if w r then s r else r))
    → Each R t (update w s t)
unfolding update
update-Each w s [] h = end
update-Each w s (r ∷ t) h = also (h r here) (update-Each w s t (λ x m. h x (there m)))

pub update-In :
    (w : OxTask → Bool) (s : OxTask → OxTask) {r : OxTask} {t : Table}
    → In r t
    → w r ≡ true
    → In (s r) (update w s t)
unfolding update
update-In w s here e = rw e here
update-In w s (there m) e = there (update-In w s m e)

-- A row of the new table is a row of the old one, with what the UPDATE made of it.
pub In-update :
    (w : OxTask → Bool) (s : OxTask → OxTask) {r' : OxTask} (t : Table)
    → In r' (update w s t)
    → (r : OxTask) × In r t × (r' ≡ (if w r then s r else r))
unfolding update
In-update w s [] m = elim m [ ]
In-update w s (r ∷ t) m = elim (In-cons m) [
  | inl e ↦ (r, here, e)
  | inr n ↦ let (x, k, e) = In-update w s t n in (x, there k, e)
]

pub matched-none :
    (w : OxTask → Bool) (t : Table) → ((r : OxTask) → In r t → w r ≡ false) → matched w t ≡ 0
unfolding matched
matched-none w [] h = refl
matched-none w (r ∷ t) h = ground (arith, h r here, matched-none w t (λ x m. h x (there m)))

pub matched-zero :
    (w : OxTask → Bool) {r : OxTask} {t : Table} → In r t → matched w t ≡ 0 → w r ≡ false
unfolding matched
matched-zero w here h = ground arith
matched-zero w (there {x} m) h = matched-zero w m (ground arith)

-- The primary key.
abbrev pub UniqueKeys : Table → Type 0
UniqueKeys [] = Unit
UniqueKeys (r ∷ t) = All (λ x. (x.id == r.id) ≡ false) t × UniqueKeys t

abbrev pub by_key : ℕ → OxTask → Bool
by_key pk r = r.id == pk

-- A read by key finds the row.
pub first-In : {r : OxTask} {t : Table} → UniqueKeys t → In r t → first (by_key r.id) t ≡ some r
unfolding first
first-In {r} u here = ground arith
first-In {r} u (there {x} m) = ground (arith, All-In _ m u.0, first-In u.1 m)

pub first-update :
    (s : OxTask → OxTask) {r : OxTask} (t : Table)
    → (s r).id ≡ r.id
    → UniqueKeys t
    → In r t
    → first (by_key r.id) (update (by_key r.id) s t) ≡ some (s r)
unfolding first update
first-update s [] k u m = elim m [ ]
first-update s (x ∷ t) k u here = ground arith
first-update s {r} (x ∷ t) k u (there m) = ground (arith, All-In _ m u.0, first-update s t k u.1 m)

-- Two conditions that agree on the rows of the table make the same UPDATE.
pub update-cong :
    (v w : OxTask → Bool) (s s' : OxTask → OxTask) (t : Table)
    → ((r : OxTask) → In r t → (if v r then s r else r) ≡ (if w r then s' r else r))
    → update v s t ≡ update w s' t
unfolding update
update-cong v w s s' [] h = refl
update-cong v w s s' (r ∷ t) h = ap₂ ◌∷◌ (h r here) (update-cong v w s s' t (λ x m. h x (there m)))

-- Of rows with unique keys, the one with the key of `r` is `r`.
pub unique_row :
    {r x : OxTask} {t : Table} → UniqueKeys t → In r t → In x t → (x.id == r.id) ≡ true → x ≡ r
unique_row u here here e = refl
unique_row u here (there m) e = cc (All-In _ m u.0)
unique_row {r} {x} u (there m) here e = ground (arith, All-In _ m u.0)
unique_row u (there m) (there n) e = unique_row u.1 m n e

pub first_unique :
    (p : OxTask → Bool) {r : OxTask} {t : Table}
    → UniqueKeys t
    → In r t
    → p r ≡ true
    → ((x : OxTask) → p x ≡ true → (x.id == r.id) ≡ true)
    → first p t ≡ some r
unfolding first
first_unique p u here e only = rw e
first_unique p {r} u (there {x} m) e only = elim (Bool-cases (p x)) [
  | inl q ↦ absurd (ground (arith, All-In _ m u.0, only x q))
  | inr q ↦ rw q (first_unique p u.1 m e only)
]

pub All-keys-update :
    (w : OxTask → Bool) (s : OxTask → OxTask) (k : ℕ) (t : Table)
    → ((r : OxTask) → (s r).id ≡ r.id)
    → All (λ x. (x.id == k) ≡ false) t
    → All (λ x. (x.id == k) ≡ false) (update w s t)
unfolding update
All-keys-update w s k [] same h = tt
All-keys-update w s k (r ∷ t) same h =
    (ground (arith, h.0, same r), All-keys-update w s k t same h.1)

-- An UPDATE that leaves the keys alone keeps them unique.
pub UniqueKeys-update :
    (w : OxTask → Bool) (s : OxTask → OxTask) (t : Table)
    → ((r : OxTask) → (s r).id ≡ r.id)
    → UniqueKeys t
    → UniqueKeys (update w s t)
unfolding update
UniqueKeys-update w s [] same u = tt
UniqueKeys-update w s (r ∷ t) same u = elim (Bool-cases (w r)) [
  | inl e ↦ rw (e, same r) (All-keys-update w s r.id t same u.0, UniqueKeys-update w s t same u.1)
  | inr e ↦ rw e (All-keys-update w s r.id t same u.0, UniqueKeys-update w s t same u.1)
]

pub matched-witness :
    (w : OxTask → Bool) (t : Table) → matched w t ≢ 0 → (r : OxTask) × In r t × (w r ≡ true)
unfolding matched
matched-witness w [] h = absurd (h refl)
matched-witness w (r ∷ t) h = elim (Bool-cases (w r)) [
  | inl e ↦ (r, here, e)
  | inr e ↦ let (x, m, q) = matched-witness w t (λ z. h (ground arith)) in (x, there m, q)
]

pub length-update :
    (w : OxTask → Bool) (s : OxTask → OxTask) (t : Table) → length (update w s t) ≡ length t
unfolding update
length-update w s [] = refl
length-update w s (r ∷ t) = ap suc (length-update w s t)
