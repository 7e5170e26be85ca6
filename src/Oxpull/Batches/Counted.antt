-- ===== src/Oxpull/Batches/Counted.antt =====
-- The members of a batch and the total that its seal freezes.
use django_ox.Prelude.{
  ℕ, ◌≡◌, refl, sym, Bool, true, false, ◌==◌, ◌||◌, some, List, [], ◌∷◌, ◌++◌, length, Bool-cases,
  inl, inr, arith,
}
use django_ox.Store.{Status}
use django_ox.Waiting.{Call}
use django_ox.Oxpull.Batches.{
  member_task_counts, pending_count, Batch, BatchStatus, open_, sealed, complete, is_open,
  is_sealed, Enqueued, task_id, is_member, add, seal, complete_once, finish, completed_row,
}
use django_ox.Oxpull.Batches.Once.{
  Change, adds, seals, reconciles, others, After, start, on, finish_cases,
}

-- No member twice, and from the seal on the total is the number of the members.
abbrev pub IsDistinct : List ℕ → Type 0
IsDistinct [] = Unit
IsDistinct (m ∷ ms) = (is_member ms m ≡ false) × IsDistinct ms

abbrev pub IsCounted : Batch → Type 0
IsCounted b =
    IsDistinct b.members
    × (is_open b.row.status ≡ false → b.row.total_count ≡ some (length b.members))

is_member-append :
    (ids : List ℕ) (m n : ℕ) → is_member (ids ++ n ∷ []) m ≡ (is_member ids m || n == m)
is_member-append [] m n = ground arith
is_member-append (i ∷ ids) m n = ground (arith, is_member-append ids m n)

IsDistinct-append :
    (ids : List ℕ) (n : ℕ) → IsDistinct ids → is_member ids n ≡ false → IsDistinct (ids ++ n ∷ [])
IsDistinct-append [] n d e = (refl, tt)
IsDistinct-append (i ∷ ids) n d e =
    (ground (arith, is_member-append ids i n, d.0), IsDistinct-append ids n d.1 (ground arith))

add-IsCounted : (e : Enqueued) (b : Batch) → IsCounted b → IsCounted (add e b).0
unfolding add
add-IsCounted e b w = elim (Bool-cases (is_open b.row.status)) [
  | inr q ↦ rw q w
  | inl q ↦ elim (Bool-cases (is_member b.members (task_id e))) [
    | inl k ↦ rw (q, k) w
    | inr k ↦ rw (q, k) (IsDistinct-append b.members (task_id e) w.0 k, λ h. cc)
  ]
]

seal-IsCounted :
    (scheduled : Bool) (now : ℕ) (b : Batch) → IsCounted b → IsCounted (seal scheduled now b).0
unfolding seal
seal-IsCounted scheduled now b w = elim (Bool-cases (is_open b.row.status)) [
  | inr q ↦ rw q w
  | inl q ↦ elim (Bool-cases scheduled) [ inl k ↦ rw (q, k) (w.0, λ h. refl) | inr k ↦ rw (q, k) w ]
]

pub sealed_not_open : (s : BatchStatus) → is_sealed s ≡ true → is_open s ≡ false
sealed_not_open open_ h = sym h
sealed_not_open sealed h = refl
sealed_not_open complete h = refl

finish-IsCounted :
    (accepts : Call → Bool) (id1 id2 now : ℕ) (counts : Status → ℕ) (b : Batch)
    → is_sealed b.row.status ≡ true
    → IsCounted b
    → IsCounted (finish accepts id1 id2 now counts b).0
unfolding completed_row
finish-IsCounted accepts id1 id2 now counts b s w =
    let shut = sealed_not_open b.row.status s in
    elim (finish_cases accepts id1 id2 now counts b) [
      | inl (e, n) ↦ rw e w
      | inr (callback, t1, success, t2, q, f) ↦ rw (f, w.1 shut) (w.0, λ h. refl)
    ]

complete_once-IsCounted :
    (accepts : Call → Bool) (id1 id2 now : ℕ) (b : Batch)
    → IsCounted b
    → IsCounted (complete_once accepts id1 id2 now b).0
unfolding complete_once
complete_once-IsCounted accepts id1 id2 now b w =
    let counts = member_task_counts b.members b.tasks in
    elim (Bool-cases (is_sealed b.row.status)) [
      | inr e ↦ rw e w
      | inl e ↦ elim (Bool-cases (pending_count counts == 0)) [
        | inr q ↦ rw (e, q) w
        | inl q ↦ rw (e, q) (finish-IsCounted accepts id1 id2 now counts b e w)
      ]
    ]

Change-IsCounted : (b c : Batch) → IsCounted b → Change b c → IsCounted c
Change-IsCounted b c w (adds e) = add-IsCounted e b w
Change-IsCounted b c w (seals scheduled now) = seal-IsCounted scheduled now b w
Change-IsCounted b c w (reconciles accepts id1 id2 now) =
    complete_once-IsCounted accepts id1 id2 now b w
Change-IsCounted b c w (others t) = w

-- For a batch whose members are distinct and, once it is sealed, as many as its total says, such as a
-- new batch: whatever transactions follow, that holds.
pub After-IsCounted : {b c : Batch} → IsCounted b → After b c → IsCounted c
After-IsCounted w start = w
After-IsCounted w (on {c} {d} r k) = Change-IsCounted c d (After-IsCounted w r) k
