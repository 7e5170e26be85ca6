-- ===== src/Waiting/Pinned/Exact.antt =====
-- Which rows the one UPDATE of a chunk matches, and the keys of the pairs: _pinned_rows and _pinned of
-- src/django_ox/_waiting.py.
use django_ox.Prelude.{
  All-append, ℕ, ◌≡◌, ◌↔◌, refl, ap, inl, inr, Bool, true, false, ◌&&◌, Option, none, some, List,
  [], ◌∷◌, ◌++◌, String, ◌==◌, any, All, All-In, In, here, there, any-In, any-witness, Bool-cases,
  Option-cases, ==_refl, place, All-place, All-sort, arith, sort, unsome,
}
use django_ox.Store.{OxTask, Status, statuses_in}
use django_ox.Actions.{ResultId, pk_of}
use django_ox.Waiting.Pinned.{
  epochs_of, has_epoch, names_key, case_epoch, equals, epoch_matches, pinned_rows, seen_from, see,
  pinned,
}

false-ne-true : false ≡ true → ⊥
false-ne-true h = cc

-- Each key once.
abbrev pub DistinctKeys : List (ℕ × ℕ) → Type 0
DistinctKeys [] = Unit
DistinctKeys (p ∷ ps) = All (λ (q : ℕ × ℕ). (q.0 == p.0) ≡ false) ps × DistinctKeys ps

abbrev is_pair : ℕ → ℕ → ℕ × ℕ → Bool
is_pair pk e p = p.0 == pk && p.1 == e

epoch_listed :
    (chunk : List (ℕ × ℕ)) {p : ℕ × ℕ} → In p chunk → has_epoch p.1 (epochs_of chunk) ≡ true
unfolding epochs_of
epoch_listed ((pk, e) ∷ rest) here = elim (Bool-cases (has_epoch e (epochs_of rest))) [
  | inl h ↦ rw h h
  | inr h ↦ rw h (ground arith)
]
epoch_listed ((pk, e) ∷ rest) (there m) = ground (arith, epoch_listed rest m)
epoch_listed [] m = elim m [ ]

-- One listed epoch is that of every pair.
only_epoch :
    (chunk : List (ℕ × ℕ)) (e : ℕ) {p : ℕ × ℕ} → epochs_of chunk ≡ e ∷ [] → In p chunk → p.1 ≡ e
only_epoch chunk e {p} h m =
    let l : has_epoch p.1 (e ∷ []) ≡ true = rw h at (epoch_listed chunk m) in ground arith

case_epoch-found :
    (chunk : List (ℕ × ℕ)) (es : List ℕ) (pk e : ℕ)
    → case_epoch chunk es pk ≡ some e
    → any (is_pair pk e) chunk ≡ true
unfolding case_epoch
case_epoch-found chunk [] pk e h = cc
case_epoch-found chunk (f ∷ es) pk e h = elim (Bool-cases (any (is_pair pk f) chunk)) [
  | inl q ↦ let same : f ≡ e = unsome (rw q at h) in rw (← same) q
  | inr q ↦ case_epoch-found chunk es pk e (rw q at h)
]

unique_pair :
    {p q : ℕ × ℕ} {chunk : List (ℕ × ℕ)}
    → DistinctKeys chunk
    → In p chunk
    → In q chunk
    → (q.0 == p.0) ≡ true
    → q ≡ p
unique_pair d here here e = refl
unique_pair d here (there n) e = cc (All-In _ n d.0)
unique_pair {p} {q} d (there m) here e = absurd (ground (arith, All-In _ m d.0))
unique_pair d (there m) (there n) e = unique_pair d.1 m n e

-- With distinct keys a key has one epoch.
one_epoch :
    (chunk : List (ℕ × ℕ)) (pk e f : ℕ)
    → DistinctKeys chunk
    → In (pk, e) chunk
    → any (is_pair pk f) chunk ≡ true
    → f ≡ e
one_epoch chunk pk e f d m h =
    let (p, n, q) = any-witness (is_pair pk f) chunk h in
    let same : p ≡ (pk, e) = unique_pair d m n (ground arith) in
    ground (arith, ap (λ (x : ℕ × ℕ). x.1) same)

case_epoch_complete :
    (chunk : List (ℕ × ℕ)) (es : List ℕ) (pk e : ℕ)
    → DistinctKeys chunk
    → In (pk, e) chunk
    → has_epoch e es ≡ true
    → case_epoch chunk es pk ≡ some e
unfolding case_epoch
case_epoch_complete chunk [] pk e d m h = cc
case_epoch_complete chunk (f ∷ es) pk e d m h = elim (Bool-cases (any (is_pair pk f) chunk)) [
  | inl q ↦ rw (q, one_epoch chunk pk e f d m q)
  | inr q ↦ elim (Bool-cases (f == e)) [
    | inl y ↦ absurd (ground (arith, any-In (is_pair pk f) m))
    | inr y ↦ rw q (case_epoch_complete chunk es pk e d m (ground arith))
  ]
]

names-In : (chunk : List (ℕ × ℕ)) (pk e : ℕ) → In (pk, e) chunk → names_key pk chunk ≡ true
names-In chunk pk e m = any-In (λ p. p.0 == pk) m (==_refl pk)

no_epochs : (chunk : List (ℕ × ℕ)) {p : ℕ × ℕ} → epochs_of chunk ≡ [] → In p chunk → ⊥
no_epochs chunk {p} h m = let l : has_epoch p.1 [] ≡ true = rw h at (epoch_listed chunk m) in cc

matches-In :
    (chunk : List (ℕ × ℕ)) (es : List ℕ) (r : OxTask)
    → epochs_of chunk ≡ es
    → names_key r.id chunk ≡ true
    → epoch_matches chunk es r ≡ true
    → In (r.id, r.lease_epoch) chunk
matches-In chunk [] r e n h =
    let (p, m, q) = any-witness (λ p. p.0 == r.id) chunk n in absurd (no_epochs chunk e m)
matches-In chunk (x ∷ []) r e n h =
    let (p, m, q) = any-witness (λ p. p.0 == r.id) chunk n in
    let same : p ≡ (r.id, r.lease_epoch) = ground (arith, only_epoch chunk x e m) in rw same at m
matches-In chunk (x ∷ y ∷ es) r e n h = elim (Option-cases (case_epoch chunk (x ∷ y ∷ es) r.id)) [
  | inl z ↦ absurd (false-ne-true (rw z at h))
  | inr (f, z) ↦
      let (p, m, q) =
        any-witness (is_pair r.id f) chunk (case_epoch-found chunk (x ∷ y ∷ es) r.id f z) in
      let known : equals r.lease_epoch (some f) ≡ true = rw z at h in
      let same : p ≡ (r.id, r.lease_epoch) = ground arith in rw same at m
]

In-matches :
    (chunk : List (ℕ × ℕ)) (es : List ℕ) (r : OxTask)
    → epochs_of chunk ≡ es
    → DistinctKeys chunk
    → In (r.id, r.lease_epoch) chunk
    → epoch_matches chunk es r ≡ true
In-matches chunk [] r e d m = absurd (no_epochs chunk e m)
In-matches chunk (x ∷ []) r e d m = ground (arith, only_epoch chunk x e m)
In-matches chunk (x ∷ y ∷ es) r e d m =
    rw
      (case_epoch_complete chunk (x ∷ y ∷ es) r.id r.lease_epoch d m
        (rw e at (epoch_listed chunk m)))
      (==_refl r.lease_epoch)

pub pinned_rows-In :
    (chunk : List (ℕ × ℕ)) (statuses : List Status) (r : OxTask)
    → pinned_rows chunk statuses r ≡ true
    → In (r.id, r.lease_epoch) chunk × (statuses_in statuses r.status ≡ true)
unfolding pinned_rows
pinned_rows-In chunk statuses r h =
    (matches-In chunk (epochs_of chunk) r refl (ground arith) (ground arith), ground arith)

-- For pairs of distinct keys, whether the chunk has one epoch or several, the condition of its one
-- UPDATE holds of exactly the rows that are listed with the epoch they are at and are in one of
-- the statuses.
pub pinned_rows_iff :
    (chunk : List (ℕ × ℕ)) (statuses : List Status) (r : OxTask)
    → DistinctKeys chunk
    → (pinned_rows chunk statuses r ≡ true)
      ↔ (In (r.id, r.lease_epoch) chunk × (statuses_in statuses r.status ≡ true))
unfolding pinned_rows
pinned_rows_iff chunk statuses r d = (
  pinned_rows-In chunk statuses r,
  λ h. ground (
    arith,
    names-In chunk r.id r.lease_epoch h.0,
    In-matches chunk (epochs_of chunk) r refl d h.0,
  ),
)

Distinct-place :
    (le : ℕ × ℕ → ℕ × ℕ → Bool) (p : ℕ × ℕ) (ps : List (ℕ × ℕ))
    → All (λ (q : ℕ × ℕ). (q.0 == p.0) ≡ false) ps
    → DistinctKeys ps
    → DistinctKeys (place le p ps)
unfolding place
Distinct-place le p [] a d = (tt, tt)
Distinct-place le p (x ∷ xs) a d = elim (Bool-cases (le p x)) [
  | inl e ↦ rw e (a, d)
  | inr e ↦ rw e (
    All-place le (λ (q : ℕ × ℕ). (q.0 == x.0) ≡ false) p xs (ground arith) d.0,
    Distinct-place le p xs a.1 d.1,
  )
]

Distinct-sort :
    (le : ℕ × ℕ → ℕ × ℕ → Bool) (ps : List (ℕ × ℕ)) → DistinctKeys ps → DistinctKeys (sort le ps)
unfolding sort
Distinct-sort le [] d = tt
Distinct-sort le (p ∷ ps) d =
    Distinct-place le p (sort le ps) (All-sort le (λ (q : ℕ × ℕ). (q.0 == p.0) ≡ false) ps d.0)
      (Distinct-sort le ps d.1)

Distinct-snoc :
    (pk e : ℕ) (ps : List (ℕ × ℕ))
    → any (λ (p : ℕ × ℕ). p.0 == pk) ps ≡ false
    → DistinctKeys ps
    → DistinctKeys (ps ++ (pk, e) ∷ [])
Distinct-snoc pk e [] h d = (tt, tt)
Distinct-snoc pk e (x ∷ xs) h d = (
  All-append (λ (q : ℕ × ℕ). (q.0 == x.0) ≡ false) xs (pk, e) d.0 (ground arith),
  Distinct-snoc pk e xs (ground arith) d.1,
)

Distinct-see :
    (pk : Option ℕ) (e : ℕ) (ps : List (ℕ × ℕ)) → DistinctKeys ps → DistinctKeys (see pk e ps)
Distinct-see none e ps d = d
Distinct-see (some pk) e ps d = elim (Bool-cases (any (λ (p : ℕ × ℕ). p.0 == pk) ps)) [
  | inl h ↦ rw h d
  | inr h ↦ rw h (Distinct-snoc pk e ps h d)
]

Distinct-seen :
    (parse : String → Option ℕ) (ps : List (ℕ × ℕ)) (rows : List (ResultId × ℕ))
    → DistinctKeys ps
    → DistinctKeys (seen_from parse ps rows)
unfolding seen_from
Distinct-seen parse ps [] d = d
Distinct-seen parse ps ((i, e) ∷ rest) d =
    Distinct-seen parse (see (pk_of parse i) e ps) rest (Distinct-see (pk_of parse i) e ps d)

-- The pairs of a call name each key once, whatever ids it was given, however often.
pub pinned-DistinctKeys :
    (parse : String → Option ℕ) (key : ℕ → ℕ) (rows : List (ResultId × ℕ))
    → DistinctKeys (pinned parse key rows)
unfolding pinned
pinned-DistinctKeys parse key rows = Distinct-sort _ _ (Distinct-seen parse [] rows tt)
