-- ===== src/Prelude/Sort.antt =====
-- A stable sort by a Boolean order, for ORDER BY and Python's sorted(), with its laws.
use Prim.Native.Nat.{suc}
use mathlib.Core.Path.{◌≡◌, refl, ap, ◌∙◌}
use mathlib.Core.Bool.{Bool, true, false}
use mathlib.Core.Logic.{◌⊎◌, inl, inr}
use mathlib.Core.List.{List, [], ◌∷◌}
use mathlib.Core.Option.{some}
use native.Mathlib.Omega.{arith}
use django_ox.Prelude.Tests.{if◌then◌else◌, Bool-cases}
use django_ox.Prelude.Lists.{length, head?, All, All-map, All-In, In, here, there}
use django_ox.Prelude.Membership.{In-cons}

module _ {ℓ} {A : Type ℓ} (le : A → A → Bool) where
  unfoldable pub place : A → List A → List A
  place r [] = r ∷ []
  place r (x ∷ xs) = let later = place r xs in if le r x then r ∷ x ∷ xs else x ∷ later

  unfoldable pub sort : List A → List A
  unfolding place
  sort [] = []
  sort (r ∷ t) = place r (sort t)

  In-place : {a : A} (r : A) (xs : List A) → In a (place r xs) → (a ≡ r) ⊎ In a xs
  unfolding place
  In-place r [] m = In-cons m
  In-place r (x ∷ xs) m = elim (Bool-cases (le r x)) [
    | inl e ↦ In-cons (rw e at m)
    | inr e ↦ elim (In-cons (rw e at m)) [
      | inl q ↦ inr (rw q here)
      | inr n ↦ elim (In-place r xs n) [ inl q ↦ inl q | inr k ↦ inr (there k) ]
    ]
  ]

  place_self : (r : A) (xs : List A) → In r (place r xs)
  unfolding place
  place_self r [] = here
  place_self r (x ∷ xs) = elim (Bool-cases (le r x)) [
    | inl e ↦ rw e here
    | inr e ↦ rw e (there (place_self r xs))
  ]

  place-In : {a : A} (r : A) {xs : List A} → In a xs → In a (place r xs)
  unfolding place
  place-In {a} r here = elim (Bool-cases (le r a)) [ inl e ↦ rw e (there here) | inr e ↦ rw e here ]
  place-In r (there {x} m) = elim (Bool-cases (le r x)) [
    | inl e ↦ rw e (there (there m))
    | inr e ↦ rw e (there (place-In r m))
  ]

  pub In-sort : {a : A} (xs : List A) → In a (sort xs) → In a xs
  unfolding sort
  In-sort [] m = m
  In-sort (x ∷ xs) m = elim (In-place x (sort xs) m) [
    | inl q ↦ rw q here
    | inr n ↦ there (In-sort xs n)
  ]

  pub sort-In : {a : A} {xs : List A} → In a xs → In a (sort xs)
  unfolding sort
  sort-In here = place_self _ _
  sort-In (there m) = place-In _ (sort-In m)

  length-place : (r : A) (xs : List A) → length (place r xs) ≡ suc (length xs)
  unfolding place
  length-place r [] = refl
  length-place r (x ∷ xs) = ground (arith, length-place r xs)

  pub length-sort : (xs : List A) → length (sort xs) ≡ length xs
  unfolding sort
  length-sort [] = refl
  length-sort (x ∷ xs) = length-place x (sort xs) ∙ ap suc (length-sort xs)

  abbrev pub IsSorted : List A → Type ℓ
  IsSorted [] = Unit
  IsSorted (x ∷ xs) = All (λ y. le x y ≡ true) xs × IsSorted xs

  pub All-place {κ} : (P : A → Type κ) (r : A) (xs : List A) → P r → All P xs → All P (place r xs)
  unfolding place
  All-place P r [] p h = (p, tt)
  All-place P r (x ∷ xs) p h = elim (Bool-cases (le r x)) [
    | inl e ↦ rw e (p, h)
    | inr e ↦ rw e (h.0, All-place P r xs p h.1)
  ]

  pub All-sort {κ} : (P : A → Type κ) (xs : List A) → All P xs → All P (sort xs)
  unfolding sort
  All-sort P [] h = tt
  All-sort P (x ∷ xs) h = All-place P x (sort xs) h.0 (All-sort P xs h.1)

  module _ (total : (a b : A) → le a b ≡ false → le b a ≡ true)
      (trans : (a b c : A) → le a b ≡ true → le b c ≡ true → le a c ≡ true) where
    place-IsSorted : (r : A) (xs : List A) → IsSorted xs → IsSorted (place r xs)
    unfolding place
    place-IsSorted r [] s = (tt, tt)
    place-IsSorted r (x ∷ xs) s = elim (Bool-cases (le r x)) [
      | inl e ↦ rw e ((e, All-map _ _ (λ y h. trans r x y e h) xs s.0), s)
      | inr e ↦
          rw e (All-place (λ y. le x y ≡ true) r xs (total r x e) s.0, place-IsSorted r xs s.1)
    ]

    pub sort-IsSorted : (xs : List A) → IsSorted (sort xs)
    unfolding sort
    sort-IsSorted [] = tt
    sort-IsSorted (x ∷ xs) = place-IsSorted x (sort xs) (sort-IsSorted xs)

    -- What comes first in the order comes before every member.
    head-le :
        (a b : A) (ys : List A)
        → IsSorted ys
        → head? ys ≡ some a
        → In b ys
        → (b ≡ a) ⊎ (le a b ≡ true)
    head-le a b [] s h m = elim m [ ]
    head-le a b (y ∷ ys) s h m = elim (In-cons m) [
      | inl q ↦ inl (cc)
      | inr n ↦ let e : y ≡ a = cc in inr (rw (← e) (All-In _ n s.0))
    ]

    pub sort-first :
        (a b : A) (xs : List A) → head? (sort xs) ≡ some a → In b xs → (b ≡ a) ⊎ (le a b ≡ true)
    sort-first a b xs h m = head-le a b (sort xs) (sort-IsSorted xs) h (sort-In m)
