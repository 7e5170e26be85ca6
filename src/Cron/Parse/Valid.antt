-- ===== src/Cron/Parse/Valid.antt =====
-- _parse_value and _parse_field: the values of a field.
use django_ox.Prelude.{
  ℕ, zero, suc, ◌+◌, ◌≤◌, ◌<◌, ◌≡◌, refl, inl, inr, Option, none, some, List, [], ◌∷◌, ltb, ◌==◌,
  All, Bool-cases, arith, sym,
}
use django_ox.Cron.Text.{Text, lower, text_eq, Number, contains, partition}
use django_ox.Cron.Parse.{
  ValueError, Parsed, raised, parsed, and_then, Names, parse_value, value_of, checked, in_range,
  get, range, add, add_all, parse_body, ascending, last_value,
}
use django_ox.Cron.Walk.Following.{InOrder}

-- The values of a field: in order, and between its bounds.
abbrev pub Within : ℕ → ℕ → List ℕ → Type 0
Within low high xs = InOrder (suc high) xs × All (λ x. low ≤ x) xs

abbrev pub Between : ℕ → ℕ → ℕ → Type 0
Between low high x = (low ≤ x) × (x ≤ high)

pub raised-ne-parsed {ℓ} : {A : Type ℓ} {e : ValueError} {a : A} → raised e ≡ parsed a → ⊥
raised-ne-parsed h = cc

pub parsed-inj {ℓ} : {A : Type ℓ} {a b : A} → parsed a ≡ parsed b → a ≡ b
parsed-inj h = cc

-- Where a chain parses, so does its first part.
pub and_then-parsed {ℓ κ} :
    {A : Type ℓ} {B : Type κ} (p : Parsed A) (f : A → Parsed B) {b : B}
    → and_then p f ≡ parsed b
    → (a : A) × (p ≡ parsed a) × (f a ≡ parsed b)
and_then-parsed (raised e) f h = absurd (raised-ne-parsed h)
and_then-parsed (parsed a) f h = (a, refl, h)

checked-Between :
    (s : Text) (low high : ℕ) (v : Option Number) (n : ℕ)
    → checked s low high v ≡ parsed n
    → Between low high n
checked-Between s low high none n h = absurd (raised-ne-parsed h)
checked-Between s low high (some v) n h = elim (Bool-cases (in_range low high v)) [
  | inl q ↦ let same : v.size ≡ n = parsed-inj (rw q at h) in ground arith
  | inr q ↦ absurd (raised-ne-parsed (rw q at h))
]

parse_value-Between :
    (s : Text) (low high : ℕ) (names : Names) (n : ℕ)
    → parse_value s low high names ≡ parsed n
    → Between low high n
unfolding parse_value
parse_value-Between s low high names n h =
    checked-Between s low high (value_of s (get names (lower s))) n h

pub range-Between :
    (fuel low high first stop step : ℕ)
    → low ≤ first
    → stop ≤ suc high
    → All (Between low high) (range fuel first stop step)
unfolding range
range-Between zero low high first stop step a b = tt
range-Between (suc fuel) low high first stop step a b = elim (Bool-cases (ltb first stop)) [
  | inl q ↦
      rw q
        ((a, ground arith), range-Between fuel low high (first + step) stop step (ground arith) b)
  | inr q ↦ rw q tt
]

All-add : (P : ℕ → Type 0) (n : ℕ) (xs : List ℕ) → P n → All P xs → All P (add n xs)
unfolding add
All-add P n [] p a = (p, a)
All-add P n (x ∷ xs) p a = elim (Bool-cases (ltb n x)) [
  | inl q ↦ rw q (p, a)
  | inr q ↦ elim (Bool-cases (n == x)) [
    | inl k ↦ rw (q, k) a
    | inr k ↦ rw (q, k) (a.0, All-add P n xs p a.1)
  ]
]

All-above : (n x : ℕ) (xs : List ℕ) → n ≤ x → All (λ y. x ≤ y) xs → All (λ y. n ≤ y) xs
All-above n x [] h a = tt
All-above n x (y ∷ xs) h a = (ground arith, All-above n x xs h a.1)

add-InOrder : (limit n : ℕ) (xs : List ℕ) → n < limit → InOrder limit xs → InOrder limit (add n xs)
unfolding add
add-InOrder limit n [] h o = (h, tt, tt)
add-InOrder limit n (x ∷ xs) h o = elim (Bool-cases (ltb n x)) [
  | inl q ↦ let below : n ≤ x = ground arith in rw q (h, (below, All-above n x xs below o.1), o)
  | inr q ↦ elim (Bool-cases (n == x)) [
    | inl k ↦ rw (q, k) o
    | inr k ↦
        rw (q, k) (o.0, All-add (λ y. x ≤ y) n xs (ground arith) o.1, add-InOrder limit n xs h o.2)
  ]
]

pub add_all-Within :
    (low high : ℕ) (ns xs : List ℕ)
    → All (Between low high) ns
    → Within low high xs
    → Within low high (add_all ns xs)
unfolding add_all
add_all-Within low high [] xs a w = w
add_all-Within low high (n ∷ ns) xs a w =
    let (o, b) = add_all-Within low high ns xs a.1 w in
    (
      add-InOrder (suc high) n (add_all ns xs) (ground arith) o,
      All-add (λ x. low ≤ x) n (add_all ns xs) a.0.0 b,
    )

ascending-Between :
    (body : Text) (low high first last : ℕ) (ends : ℕ × ℕ)
    → Between low high first
    → Between low high last
    → ascending body first last ≡ parsed ends
    → Between low high ends.0 × Between low high ends.1
ascending-Between body low high first last ends a b h = elim (Bool-cases (ltb last first)) [
  | inl q ↦ absurd (raised-ne-parsed (rw q at h))
  | inr q ↦ let same : (first, last) ≡ ends = parsed-inj (rw q at h) in rw (sym same) (a, b)
]

last-Between :
    (s : Text) (low high first : ℕ)
    → low ≤ high
    → Between low high first
    → Between low high (last_value s high first)
last-Between [] low high first l b = b
last-Between (c ∷ s) low high first l b = (l, ground arith)

pub parse_body-Between :
    (body step_text : Text) (low high : ℕ) (names : Names) (ends : ℕ × ℕ)
    → low ≤ high
    → parse_body body step_text low high names ≡ parsed ends
    → Between low high ends.0 × Between low high ends.1
unfolding parse_body
parse_body-Between body step_text low high names ends l h =
    elim (Bool-cases (text_eq body (42 ∷ []))) [
      | inl q ↦
          let same : (low, high) ≡ ends = parsed-inj (rw q at h) in
          rw (sym same) ((ground arith, l), (l, ground arith))
      | inr q ↦ elim (Bool-cases (contains 45 body)) [
        | inl k ↦
            let (first, f, g) =
              and_then-parsed (parse_value (partition 45 body).0 low high names) _
                (rw (q, k) at h) in
            let (last, m, n) =
              and_then-parsed (parse_value (partition 45 body).1 low high names) _ g in
            ascending-Between body low high first last ends
              (parse_value-Between (partition 45 body).0 low high names first f)
              (parse_value-Between (partition 45 body).1 low high names last m) n
        | inr k ↦
            let (first, f, g) =
              and_then-parsed (parse_value body low high names) _ (rw (q, k) at h) in
            let b = parse_value-Between body low high names first f in
            let same : (first, last_value step_text high first) ≡ ends = parsed-inj g in
            rw (sym same) (b, last-Between step_text low high first l b)
      ]
    ]
