-- ===== src/Oxpull/Batches/Counting.antt =====
-- How many rows of a table whose keys are unique a set of task ids can reach.
use django_ox.Prelude.{
  ℕ, ◌+◌, ◌≤◌, ◌≡◌, refl, Bool, true, false, ◌&&◌, List, [], ◌∷◌, ◌==◌, arith, length, All, In,
  Bool-cases, inl, inr,
}
use django_ox.Store.{
  OxTask, Table, ready, running, failed, successful, lost, discarded, waiting, matched,
}
use django_ox.Store.Update.{UniqueKeys, matched-witness}
use django_ox.Oxpull.Batches.{is_member, sum_over, all_statuses, member_task_counts}

-- The rows that pass `p` and have the key `m`.
abbrev pub is_at : (OxTask → Bool) → ℕ → OxTask → Bool
is_at p m r = m == r.id && p r

abbrev pub is_among : (OxTask → Bool) → List ℕ → OxTask → Bool
is_among p ids r = is_member ids r.id && p r

matched_elsewhere :
    (p : OxTask → Bool) (m : ℕ) (t : Table)
    → All (λ x. (x.id == m) ≡ false) t
    → matched (is_at p m) t ≡ 0
unfolding matched
matched_elsewhere p m [] a = refl
matched_elsewhere p m (r ∷ t) a = ground (arith, a.0, matched_elsewhere p m t a.1)

matched_at_most_once :
    (p : OxTask → Bool) (m : ℕ) (t : Table) → UniqueKeys t → matched (is_at p m) t ≤ 1
unfolding matched
matched_at_most_once p m [] u = omega arith
matched_at_most_once p m (r ∷ t) u = elim (Bool-cases (m == r.id)) [
  | inl e ↦
      let same : r.id ≡ m = ground arith in
      ground (arith, matched_elsewhere p m t (rw (← same) u.0))
  | inr e ↦ ground (arith, matched_at_most_once p m t u.1)
]

matched_split :
    (p : OxTask → Bool) (m : ℕ) (ids : List ℕ) (t : Table)
    → matched (is_among p (m ∷ ids)) t ≤ matched (is_at p m) t + matched (is_among p ids) t
unfolding matched
matched_split p m ids [] = omega arith
matched_split p m ids (r ∷ t) = elim (Bool-cases (p r)) [
  | inl e ↦ ground (arith, e, matched_split p m ids t)
  | inr e ↦ ground (arith, e, matched_split p m ids t)
]

matched_no_ids : (p : OxTask → Bool) (t : Table) → matched (is_among p []) t ≡ 0
unfolding matched
matched_no_ids p [] = refl
matched_no_ids p (r ∷ t) = omega (arith, matched_no_ids p t)

pub matched_among :
    (p : OxTask → Bool) (ids : List ℕ) (t : Table)
    → UniqueKeys t
    → matched (is_among p ids) t ≤ length ids
matched_among p [] t u = omega (arith, matched_no_ids p t)
matched_among p (m ∷ ids) t u =
    omega (arith, matched_split p m ids t, matched_at_most_once p m t u, matched_among p ids t u)

abbrev pub Reached : (OxTask → Bool) → Table → ℕ → Type 0
Reached p t m = (r : OxTask) × In r t × ((m == r.id && p r) ≡ true)

-- As many rows as ids: each id has its row.
pub All-Reached :
    (p : OxTask → Bool) (ids : List ℕ) (t : Table)
    → UniqueKeys t
    → length ids ≤ matched (is_among p ids) t
    → All (Reached p t) ids
All-Reached p [] t u n = tt
All-Reached p (m ∷ ids) t u n =
    let split = matched_split p m ids t in
    let one = matched_at_most_once p m t u in
    let rest = matched_among p ids t u in
    (matched-witness (is_at p m) t (λ z. omega arith), All-Reached p ids t u (omega arith))

-- Every row is counted under its status.
pub sum_of_counts :
    (ids : List ℕ) (t : Table)
    → sum_over (member_task_counts ids t) all_statuses ≡ matched (is_among (λ r. true) ids) t
unfolding member_task_counts matched
sum_of_counts ids [] = refl
sum_of_counts ids (r ∷ t) =
    let rest = sum_of_counts ids t in
    elim r.status [
      | ready ↦ ground arith
      | running ↦ ground arith
      | failed ↦ ground arith
      | successful ↦ ground arith
      | lost ↦ ground arith
      | discarded ↦ ground arith
      | waiting ↦ ground arith
    ]
