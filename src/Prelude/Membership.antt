-- ===== src/Prelude/Membership.antt =====
-- What `select`, `take` and `any` keep of a list, in terms of `In` and `All`.
use Prim.Native.Nat.{ℕ, zero, suc, ◌≤◌}
use mathlib.Core.Path.{◌≡◌, refl, ap}
use mathlib.Core.Bool.{Bool, true}
use mathlib.Core.Logic.{◌⊎◌, inl, inr}
use mathlib.Core.List.{List, [], ◌∷◌, ◌++◌}
use mathlib.Core.Option.{some}
use native.Mathlib.Omega.{arith}
use django_ox.Prelude.Tests.{Bool-cases}
use django_ox.Prelude.Lists.{length, take, select, any, head?, All, In, here, there}

module _ {ℓ} {A : Type ℓ} where
  pub In-cons : {a x : A} {xs : List A} → In a (x ∷ xs) → (a ≡ x) ⊎ In a xs
  In-cons here = inl refl
  In-cons (there m) = inr m

  pub In-select : (p : A → Bool) {a : A} (xs : List A) → In a (select p xs) → In a xs × (p a ≡ true)
  In-select p [] m = elim m [ ]
  In-select p {a} (x ∷ xs) m = elim (Bool-cases (p x)) [
    | inl e ↦ elim (In-cons (rw e at m)) [
      | inl q ↦ (rw q here, rw q e)
      | inr n ↦ let h = In-select p xs n in (there h.0, h.1)
    ]
    | inr e ↦ let h = In-select p xs (rw e at m) in (there h.0, h.1)
  ]

  pub select-In : (p : A → Bool) {a : A} {xs : List A} → In a xs → p a ≡ true → In a (select p xs)
  select-In p here e = rw e here
  select-In p (there {x} m) e = elim (Bool-cases (p x)) [
    | inl q ↦ rw q (there (select-In p m e))
    | inr q ↦ rw q (select-In p m e)
  ]

  pub take-all : (n : ℕ) (xs : List A) → length xs ≤ n → take n xs ≡ xs
  take-all zero [] h = refl
  take-all zero (x ∷ xs) h = absurd (omega arith)
  take-all (suc n) [] h = refl
  take-all (suc n) (x ∷ xs) h = ap (◌∷◌ x) (take-all n xs (omega arith))

  pub length-select : (p : A → Bool) (xs : List A) → length (select p xs) ≤ length xs
  length-select p [] = omega arith
  length-select p (x ∷ xs) = ground (arith, length-select p xs)

  pub any-In : (p : A → Bool) {a : A} {xs : List A} → In a xs → p a ≡ true → any p xs ≡ true
  any-In p here e = rw e
  any-In p (there {x} m) e = ground (arith, any-In p m e)

  pub any-witness :
      (p : A → Bool) (xs : List A) → any p xs ≡ true → (a : A) × In a xs × (p a ≡ true)
  any-witness p [] h = cc
  any-witness p (x ∷ xs) h = elim (Bool-cases (p x)) [
    | inl e ↦ (x, here, e)
    | inr e ↦ let (a, m, q) = any-witness p xs (rw e at h) in (a, there m, q)
  ]

  pub head?-In : (xs : List A) {a : A} → head? xs ≡ some a → In a xs
  head?-In [] h = cc
  head?-In (x ∷ xs) {a} h = let e : a ≡ x = cc in rw e here

  pub In-append : {a : A} (xs ys : List A) → In a xs → In a (xs ++ ys)
  In-append [] ys m = elim m [ ]
  In-append (x ∷ xs) ys here = here
  In-append (x ∷ xs) ys (there m) = there (In-append xs ys m)

  pub In-last : (xs : List A) (a : A) → In a (xs ++ a ∷ [])
  In-last [] a = here
  In-last (x ∷ xs) a = there (In-last xs a)

module _ {ℓ κ} {A : Type ℓ} (P : A → Type κ) where
  pub All-select : (p : A → Bool) (xs : List A) → All P xs → All P (select p xs)
  All-select p [] h = tt
  All-select p (x ∷ xs) h = elim (Bool-cases (p x)) [
    | inl e ↦ rw e (h.0, All-select p xs h.1)
    | inr e ↦ rw e (All-select p xs h.1)
  ]

  pub All-of-In : (xs : List A) → ((a : A) → In a xs → P a) → All P xs
  All-of-In [] f = tt
  All-of-In (x ∷ xs) f = (f x here, All-of-In xs (λ a m. f a (there m)))

  pub All-append : (xs : List A) (x : A) → All P xs → P x → All P (xs ++ x ∷ [])
  All-append [] x a p = (p, tt)
  All-append (y ∷ xs) x a p = (a.0, All-append xs x a.1 p)
