-- ===== src/Oxpull/Unique/Pending.antt =====
-- At most one pending task for a key, with any number of sessions that enqueue it.
use django_ox.Prelude.{
  ℕ, ◌≡◌, refl, ◌⊎◌, inl, inr, Bool, true, false, ◌&&◌, ◌||◌, some, List, [], ◌∷◌, ◌++◌, ◌==◌, any,
  select, Bool-cases, arith, In, here, there, In-append, In-last, In-cons, any-In, select-In,
  unsome, ==_refl,
}
use mathlib.Core.Path.{ap₂}
use django_ox.Store.{OxTask, Table}
use django_ox.Waiting.{Call, backend_enqueue, new_row}
use django_ox.Oxpull.Unique.{
  UniqueLock, Locked, is_pending, has_key, take_key, is_held, release_key,
}

abbrev lock_of : (digest : OxTask → ℕ) → OxTask → UniqueLock
lock_of digest r = record { key = digest r; task_id = r.id }

-- `is_unique` is _is_unique on the row's task.
module _ (is_unique : OxTask → Bool) (digest : OxTask → ℕ) where
  -- Every pending row of a unique task holds the lock of its key.
  abbrev pub IsGuarded : Locked → Type 0
  IsGuarded s =
      (r : OxTask)
      → In r s.tasks
      → is_unique r ≡ true
      → is_pending r ≡ true
      → In (lock_of digest r) s.locks

  -- A write of the task table: a row of a unique task that is pending afterwards was so before, under the
  -- same id and key, or has its lock. The enqueue and the release of any other task is such a write; the
  -- retry of a unique task is one while its lock is there, and not once the lock was deleted.
  abbrev pub Settles : Locked → Table → Type 0
  Settles s t =
      (r : OxTask)
      → In r t
      → is_unique r ≡ true
      → is_pending r ≡ true
      → ((x : OxTask) × In x s.tasks
          × (is_unique x ≡ true)
          × (is_pending x ≡ true)
          × (x.id ≡ r.id)
          × (digest x ≡ digest r))
        ⊎ In (lock_of digest r) s.locks

  -- One transaction: an enqueue that gets the key, the DELETE of a lock by whoever inspected it at any
  -- time, oxpull_prune too, or the task table's own writes.
  pub data Move (s : Locked) : Locked → Type 0 where
    takes :
        (id : ℕ) (call : Call) (now : ℕ) (s' : Locked)
        → take_key digest id call now s ≡ some s'
        → Move s s'
    releases : (seen : UniqueLock) → Move s (release_key seen s)
    settles : (t : Table) → Settles s t → Move s (record s { tasks = t })

  pub data Moves (s : Locked) : Locked → Type 0 where
    start : Moves s s
    on : {t u : Locked} → Moves s t → Move t u → Moves s u

-- The primary key of the locks.
abbrev pub UniqueLocks : List UniqueLock → Type 0
UniqueLocks [] = Unit
UniqueLocks (l ∷ ls) = (any (has_key l.key) ls ≡ false) × UniqueLocks ls

In-split {ℓ} : {A : Type ℓ} {a : A} (xs : List A) (y : A) → In a (xs ++ y ∷ []) → In a xs ⊎ (a ≡ y)
In-split [] y m = elim (In-cons m) [ inl e ↦ inr e | inr n ↦ inl n ]
In-split (x ∷ xs) y m = elim (In-cons m) [
  | inl e ↦ inl (rw e here)
  | inr n ↦ elim (In-split xs y n) [ inl i ↦ inl (there i) | inr e ↦ inr e ]
]

any-append :
    (k : ℕ) (ls : List UniqueLock) (y : UniqueLock)
    → any (has_key k) (ls ++ y ∷ []) ≡ (any (has_key k) ls || has_key k y)
any-append k [] y = ground arith
any-append k (l ∷ ls) y = ground (arith, any-append k ls y)

UniqueLocks-append :
    (ls : List UniqueLock) (y : UniqueLock)
    → UniqueLocks ls
    → any (has_key y.key) ls ≡ false
    → UniqueLocks (ls ++ y ∷ [])
UniqueLocks-append [] y u h = (refl, tt)
UniqueLocks-append (l ∷ ls) y u h =
    (ground (arith, any-append l.key ls y, u.0), UniqueLocks-append ls y u.1 (ground arith))

any-select :
    (k : ℕ) (p : UniqueLock → Bool) (ls : List UniqueLock)
    → any (has_key k) ls ≡ false
    → any (has_key k) (select p ls) ≡ false
any-select k p [] h = refl
any-select k p (l ∷ ls) h = ground (arith, any-select k p ls)

UniqueLocks-select :
    (p : UniqueLock → Bool) (ls : List UniqueLock) → UniqueLocks ls → UniqueLocks (select p ls)
UniqueLocks-select p [] u = tt
UniqueLocks-select p (l ∷ ls) u = elim (Bool-cases (p l)) [
  | inl e ↦ rw e (any-select l.key p ls u.0, UniqueLocks-select p ls u.1)
  | inr e ↦ rw e (UniqueLocks-select p ls u.1)
]

-- Of two locks of one key there is only one.
same_lock :
    (ls : List UniqueLock) (k a b : ℕ)
    → UniqueLocks ls
    → In (record { key = k; task_id = a }) ls
    → In (record { key = k; task_id = b }) ls
    → a ≡ b
same_lock [] k a b u m n = elim m [ ]
same_lock (l ∷ ls) k a b u m n = elim (In-cons m) [
  | inl e ↦ elim (In-cons n) [
    | inl f ↦ cc
    | inr j ↦
        let key : l.key ≡ k = cc in
        let found = any-In (has_key l.key) j (ground (arith, key)) in absurd (let x = u.0 in cc)
  ]
  | inr i ↦ elim (In-cons n) [
    | inl f ↦
        let key : l.key ≡ k = cc in
        let found = any-In (has_key l.key) i (ground (arith, key)) in absurd (let x = u.0 in cc)
    | inr j ↦ same_lock ls k a b u.1 i j
  ]
]

module _ (is_unique : OxTask → Bool) (digest : OxTask → ℕ) where
  abbrev pub IsExclusive : Locked → Type 0
  IsExclusive s = UniqueLocks s.locks × IsGuarded is_unique digest s

  take_key-IsExclusive :
      (id : ℕ) (call : Call) (now : ℕ) (s s' : Locked)
      → IsExclusive s
      → take_key digest id call now s ≡ some s'
      → IsExclusive s'
  unfolding take_key backend_enqueue
  take_key-IsExclusive id call now s s' w h =
      let key = digest (new_row id call now) in
      elim (Bool-cases (any (has_key key) s.locks)) [
        | inl e ↦ absurd (let x = rw e at h in cc)
        | inr e ↦
            let q = unsome (rw e at h) in
            let row = new_row id call now in
            rw (← q) (
              UniqueLocks-append s.locks (record { key = key; task_id = id }) w.0 e,
              λ r m v p. elim (In-split s.tasks row m) [
                | inl i ↦ In-append s.locks _ (w.1 r i v p)
                | inr f ↦ rw f (In-last s.locks (record { key = key; task_id = id }))
              ],
            )
      ]

  release_key-IsExclusive :
      (seen : UniqueLock) (s : Locked) → IsExclusive s → IsExclusive (release_key seen s)
  unfolding release_key is_held
  release_key-IsExclusive seen s w = (
    UniqueLocks-select _ s.locks w.0,
    λ r m v p. select-In _ (w.1 r m v p) (
        let held = any-In (λ x. x.id == r.id && is_pending x) m (ground (arith, ==_refl r.id)) in
        ground arith),
  )

  Move-IsExclusive : (s t : Locked) → IsExclusive s → Move is_unique digest s t → IsExclusive t
  Move-IsExclusive s t w (takes id call now s' e) = take_key-IsExclusive id call now s s' w e
  Move-IsExclusive s t w (releases seen) = release_key-IsExclusive seen s w
  Move-IsExclusive s t w (settles table h) = (
    w.0,
    λ r m v p. elim (h r m v p) [
      | inl (x, i, z, q, same, key) ↦
          let lock : lock_of digest x ≡ lock_of digest r =
            ap₂ (λ k i. record { key = k; task_id = i }) key same in
          rw (← lock) (w.1 x i z q)
      | inr i ↦ i
    ],
  )

  Moves-IsExclusive : {s t : Locked} → IsExclusive s → Moves is_unique digest s t → IsExclusive t
  Moves-IsExclusive w start = w
  Moves-IsExclusive w (on {t} {u} r k) = Move-IsExclusive t u (Moves-IsExclusive w r) k

  pub one_pending :
      {s : Locked} (a b : OxTask)
      → Moves is_unique digest (record { locks = []; tasks = [] }) s
      → In a s.tasks
      → In b s.tasks
      → is_unique a ≡ true
      → is_unique b ≡ true
      → is_pending a ≡ true
      → is_pending b ≡ true
      → digest a ≡ digest b
      → a.id ≡ b.id
  one_pending {s} a b r m n v z p q e =
      let w = Moves-IsExclusive (tt, λ x i v k. elim i [ ]) r in
      let lock : In (record { key = digest a; task_id = b.id }) s.locks = rw e (w.1 b n z q) in
      same_lock s.locks (digest a) a.id b.id w.0 (w.1 a m v p) lock
