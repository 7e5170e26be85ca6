-- ===== src/Waiting/Chunks.antt =====
-- The chunks that a list of pairs is cut into: what they hold, and that together they hold all.
use django_ox.Prelude.{
  ℕ, zero, suc, ◌≤◌, ◌≡◌, false, ◌==◌, ◌⊎◌, inl, inr, List, [], ◌∷◌, take, drop, length, In, here,
  there, In-cons, All, arith,
}
use django_ox.Actions.Ids.{chunks_within}
use django_ox.Waiting.Pinned.Exact.{DistinctKeys}

module _ {ℓ} {A : Type ℓ} where
  take-In : (n : ℕ) {a : A} (xs : List A) → In a (take n xs) → In a xs
  take-In zero xs m = elim m [ ]
  take-In (suc n) [] m = elim m [ ]
  take-In (suc n) (x ∷ xs) m = elim (In-cons m) [
    | inl e ↦ rw e here
    | inr k ↦ there (take-In n xs k)
  ]

  drop-In : (n : ℕ) {a : A} (xs : List A) → In a (drop n xs) → In a xs
  drop-In zero xs m = m
  drop-In (suc n) [] m = m
  drop-In (suc n) (x ∷ xs) m = there (drop-In n xs m)

  pub within-In :
      (fuel size : ℕ) {a : A} {c : List A} (xs : List A)
      → In c (chunks_within fuel size xs)
      → In a c
      → In a xs
  unfolding chunks_within
  within-In zero size xs m k = elim m [ ]
  within-In (suc fuel) size [] m k = elim m [ ]
  within-In (suc fuel) size (x ∷ xs) m k = elim (In-cons m) [
    | inl e ↦ take-In size (x ∷ xs) (rw e at k)
    | inr n ↦ drop-In size (x ∷ xs) (within-In fuel size (drop size (x ∷ xs)) n k)
  ]

-- A chunk that holds it, of the chunks that a list is cut into.
module _ {ℓ} {A : Type ℓ} where
  take_or_drop : (n : ℕ) {a : A} (xs : List A) → In a xs → In a (take n xs) ⊎ In a (drop n xs)
  take_or_drop zero xs m = inr m
  take_or_drop (suc n) [] m = elim m [ ]
  take_or_drop (suc n) (x ∷ xs) here = inl here
  take_or_drop (suc n) (x ∷ xs) (there m) = elim (take_or_drop n xs m) [
    | inl k ↦ inl (there k)
    | inr k ↦ inr k
  ]

  length-drop : (n : ℕ) (xs : List A) → length (drop n xs) ≤ length xs
  length-drop zero xs = omega arith
  length-drop (suc n) [] = omega arith
  length-drop (suc n) (x ∷ xs) = omega (arith, length-drop n xs)

  pub within-covers :
      (fuel size : ℕ) {a : A} (xs : List A)
      → length xs ≤ fuel
      → In a xs
      → (c : List A) × In c (chunks_within fuel (suc size) xs) × In a c
  unfolding chunks_within
  within-covers fuel size [] l m = elim m [ ]
  within-covers zero size (x ∷ xs) l m = absurd (omega arith)
  within-covers (suc fuel) size (x ∷ xs) l m =
      let rest = drop size xs in
      elim (take_or_drop (suc size) (x ∷ xs) m) [
        | inl k ↦ (take (suc size) (x ∷ xs), here, k)
        | inr k ↦
            let (c, i, j) = within-covers fuel size rest (omega (arith, length-drop size xs)) k in
            (c, there i, j)
      ]

  take-All {κ} : (P : A → Type κ) (n : ℕ) (xs : List A) → All P xs → All P (take n xs)
  take-All P zero xs a = tt
  take-All P (suc n) [] a = tt
  take-All P (suc n) (x ∷ xs) a = (a.0, take-All P n xs a.1)

take-DistinctKeys : (n : ℕ) (xs : List (ℕ × ℕ)) → DistinctKeys xs → DistinctKeys (take n xs)
take-DistinctKeys zero xs d = tt
take-DistinctKeys (suc n) [] d = tt
take-DistinctKeys (suc n) (x ∷ xs) d =
    (take-All (λ (q : ℕ × ℕ). (q.0 == x.0) ≡ false) n xs d.0, take-DistinctKeys n xs d.1)

drop-DistinctKeys : (n : ℕ) (xs : List (ℕ × ℕ)) → DistinctKeys xs → DistinctKeys (drop n xs)
drop-DistinctKeys zero xs d = d
drop-DistinctKeys (suc n) [] d = d
drop-DistinctKeys (suc n) (x ∷ xs) d = drop-DistinctKeys n xs d.1

pub within-DistinctKeys :
    (fuel size : ℕ) {c : List (ℕ × ℕ)} (xs : List (ℕ × ℕ))
    → DistinctKeys xs
    → In c (chunks_within fuel size xs)
    → DistinctKeys c
unfolding chunks_within
within-DistinctKeys zero size xs d m = elim m [ ]
within-DistinctKeys (suc fuel) size [] d m = elim m [ ]
within-DistinctKeys (suc fuel) size (x ∷ xs) d m = elim (In-cons m) [
  | inl e ↦ rw e (take-DistinctKeys size (x ∷ xs) d)
  | inr k ↦ within-DistinctKeys fuel size (drop size (x ∷ xs)) (drop-DistinctKeys size (x ∷ xs) d) k
]
