-- ===== src/Worker/Lease/Reaper.antt =====
-- A whole pass of the reaper.
use django_ox.Prelude.{
  ℕ, suc, ◌-◌, ◌≤◌, ◌≡◌, refl, sym, ◌∙◌, ◌⊎◌, inl, inr, Bool, true, false, ◌&&◌, Option, List, [],
  ◌∷◌, String, ◌==◌, leb, if◌then◌else◌, In, Bool-cases, arith, select, take, length, sort,
  length-sort, sort-In, select-In, length-select, take-all, any-In, In-cons, ==_refl,
}
use django_ox.Store.{OxTask, Table, update, matched}
use django_ox.Store.Update.{In-update, length-update}
use django_ox.Worker.{Worker, Clock}
use django_ox.Worker.Lease.{
  is_stuck, has_attempts_left, requeued, is_requeued, Reading, requeue_abandoned, is_abandoned,
  abandoned, abandon_each, abandon_exhausted, reap, reading,
}

false-ne-true : false ≡ true → ⊥
false-ne-true h = cc

-- Stuck at a reading, with attempts left or with none.
abbrev pub NotStuck : Reading → OxTask → Type 0
NotStuck now r = is_stuck now.now now.cutoff r ≡ false

abbrev stuck_left : Reading → OxTask → Bool
stuck_left now r = is_stuck now.now now.cutoff r && has_attempts_left r

abbrev stuck_spent : Reading → OxTask → Bool
stuck_spent now r = is_stuck now.now now.cutoff r && leb r.max_attempts r.attempts

requeued-NotStuck : (now : Reading) (r : OxTask) → NotStuck now (requeued r)
unfolding requeued
requeued-NotStuck now r = ground arith

lost-NotStuck :
    (now : Reading) (c : Clock) (note : Option String → String) (s r : OxTask)
    → NotStuck now (abandoned c note s r)
unfolding abandoned
lost-NotStuck now c note s r = ground arith

-- A row that the requeue leaves stuck had no attempts left, and it left it alone.
requeue_each :
    (now : Reading) (manifest : List OxTask) (r : OxTask)
    → (stuck_left now r ≡ true → In r manifest)
    → stuck_left now (if is_requeued now.now now.cutoff manifest r then requeued r else r) ≡ false
unfolding is_requeued
requeue_each now manifest r h = elim (Bool-cases (stuck_left now r)) [
  | inl e ↦
      let listed = any-In (λ (m : OxTask). m.id == r.id) (h e) (==_refl r.id) in
      ground (arith, requeued-NotStuck now r)
  | inr e ↦ ground (arith, requeued-NotStuck now r)
]

manifest-In :
    (n : ℕ) (p : OxTask → Bool) (t : Table) {r : OxTask}
    → length t ≤ n
    → In r t
    → p r ≡ true
    → In r (take n (sort (λ (a b : OxTask). leb a.id b.id) (select p t)))
manifest-In n p t h m e =
    rw
      (take-all n (sort (λ (a b : OxTask). leb a.id b.id) (select p t)) (
        omega
          (arith, length-sort (λ (a b : OxTask). leb a.id b.id) (select p t), length-select p t)))
      (sort-In _ (select-In p m e))

requeue_rows :
    (now : Reading) (manifest : List OxTask) (t : Table)
    → ((r : OxTask) → In r t → stuck_left now r ≡ true → In r manifest)
    → (r' : OxTask) → In r' (update (is_requeued now.now now.cutoff manifest) requeued t)
    → stuck_left now r' ≡ false
requeue_rows now manifest t h r' m =
    let (r, n, e) = In-update (is_requeued now.now now.cutoff manifest) requeued t m in
    rw e (requeue_each now manifest r (h r n))

requeue_manifest :
    (now : Reading) (manifest : List OxTask) (t : Table)
    → ((r : OxTask) → In r t → stuck_left now r ≡ true → In r manifest)
    → (r' : OxTask)
    → In r' (
        let result : Table × ℕ = elim manifest [
          | [] ↦ (t, 0)
          | m ∷ ms ↦ (
            update (is_requeued now.now now.cutoff (m ∷ ms)) requeued t,
            matched (is_requeued now.now now.cutoff (m ∷ ms)) t,
          )
        ] in
        result.0)
    → stuck_left now r' ≡ false
requeue_manifest now [] t h r' m = elim (Bool-cases (stuck_left now r')) [
  | inl e ↦ let k : In r' [] = h r' m e in elim k [ ]
  | inr e ↦ e
]
requeue_manifest now (x ∷ xs) t h r' m = requeue_rows now (x ∷ xs) t h r' m

requeue_complete :
    (w : Worker) (now : Reading) (t : Table)
    → length t ≤ w.reap_batch
    → (r' : OxTask) → In r' (requeue_abandoned w now now (λ x. x) t).0
    → stuck_left now r' ≡ false
unfolding requeue_abandoned
requeue_complete w now t h r' m =
    requeue_manifest now _ t (λ r n e. manifest-In w.reap_batch (stuck_left now) t h n e) r' m

one_abandoned :
    (now : Reading) (c : Clock) (note : Option String → String) (s : OxTask) (t : Table)
    (x : OxTask)
    → In x (update (is_abandoned now.now now.cutoff s) (abandoned c note s) t)
    → (In x t × (is_abandoned now.now now.cutoff s x ≡ false)) ⊎ NotStuck now x
one_abandoned now c note s t x m =
    let (r, n, e) = In-update (is_abandoned now.now now.cutoff s) (abandoned c note s) t m in
    elim (Bool-cases (is_abandoned now.now now.cutoff s r)) [
      | inl q ↦
          let same : x ≡ abandoned c note s r = rw q at e in
          inr (rw same (lost-NotStuck now c note s r))
      | inr q ↦ let same : x ≡ r = rw q at e in inl (rw same n, rw same q)
    ]

self_abandoned :
    (now : Reading) (s : OxTask)
    → stuck_spent now s ≡ true
    → is_abandoned now.now now.cutoff s s ≡ true
unfolding is_abandoned
self_abandoned now s h = ground arith

left_over :
    (now : Reading) (c : Clock) (note : Option String → String) (s : OxTask) (rest : List OxTask)
    (t : Table)
    → ((r : OxTask) → In r t → stuck_spent now r ≡ true → In r (s ∷ rest))
    → (x : OxTask) → In x (update (is_abandoned now.now now.cutoff s) (abandoned c note s) t)
    → stuck_spent now x ≡ true
    → In x rest
left_over now c note s rest t h x m e = elim (one_abandoned now c note s t x m) [
  | inr q ↦ absurd (ground arith)
  | inl (n, q) ↦ elim (In-cons (h x n e)) [
    | inr k ↦ k
    | inl same ↦ absurd (false-ne-true (sym q ∙ rw same (self_abandoned now s (rw same at e))))
  ]
]

-- A row of the table after the walk is a row of the table before it, or is not stuck; and no
-- candidate is left stuck.
abandon_rows :
    (now : Reading) (c : Clock) (note : Option String → String) (k : ℕ) (candidates : List OxTask)
    (t : Table)
    → ((r : OxTask) → In r t → stuck_spent now r ≡ true → In r candidates)
    → (r' : OxTask) → In r' (abandon_each (λ k. c) (λ k. now) note (λ k x. x) k candidates t).0
    → (In r' t ⊎ NotStuck now r') × (stuck_spent now r' ≡ false)
unfolding abandon_each
abandon_rows now c note k [] t h r' m = (
  inl m,
  elim (Bool-cases (stuck_spent now r')) [
    | inl e ↦ let z : In r' [] = h r' m e in elim z [ ]
    | inr e ↦ e
  ],
)
abandon_rows now c note k (s ∷ rest) t h r' m =
    let where_ = is_abandoned now.now now.cutoff s in
    let (came, spent) =
      abandon_rows now c note (suc k) rest (update where_ (abandoned c note s) t)
        (λ x n e. left_over now c note s rest t h x n e) r' m in
    (
      elim came [
        | inr q ↦ inr q
        | inl n ↦ elim (one_abandoned now c note s t r' n) [ inl (y, q) ↦ inl y | inr q ↦ inr q ]
      ],
      spent,
    )

abandon_complete :
    (w : Worker) (now : Reading) (c : Clock) (note : Option String → String) (t : Table)
    → length t ≤ w.reap_batch
    → (r' : OxTask) → In r' (abandon_exhausted w (λ k. c) now (λ k. now) note (λ k x. x) t).0
    → (In r' t ⊎ NotStuck now r') × (stuck_spent now r' ≡ false)
unfolding abandon_exhausted
abandon_complete w now c note t h r' m =
    abandon_rows now c note 0 _ t (λ r n e. manifest-In w.reap_batch (stuck_spent now) t h n e) r' m

left_or_spent :
    (now : Reading) (r : OxTask)
    → stuck_left now r ≡ false
    → stuck_spent now r ≡ false
    → NotStuck now r
left_or_spent now r p q = ground arith

manifest-length :
    (now : Reading) (manifest : List OxTask) (t : Table)
    → length (
        let result : Table × ℕ = elim manifest [
          | [] ↦ (t, 0)
          | m ∷ ms ↦ (
            update (is_requeued now.now now.cutoff (m ∷ ms)) requeued t,
            matched (is_requeued now.now now.cutoff (m ∷ ms)) t,
          )
        ] in
        result.0)
      ≡ length t
manifest-length now [] t = refl
manifest-length now (m ∷ ms) t = length-update (is_requeued now.now now.cutoff (m ∷ ms)) requeued t

length-requeue :
    (w : Worker) (now : Reading) (t : Table)
    → length (requeue_abandoned w now now (λ x. x) t).0 ≡ length t
unfolding requeue_abandoned
length-requeue w now t = manifest-length now _ t

reap_at :
    (w : Worker) (now : Reading) (c : Clock) (note : Option String → String) (t : Table)
    → length t ≤ w.reap_batch
    → (r' : OxTask)
    → In r'
        (abandon_exhausted w
          (λ k. c)
          now
          (λ k. now)
          note
          (λ k x. x)
          (requeue_abandoned w now now (λ x. x) t).0).0
    → NotStuck now r'
reap_at w now c note t h r' m =
    let t1 = (requeue_abandoned w now now (λ x. x) t).0 in
    let (came, spent) =
      abandon_complete w now c note t1 (omega (arith, length-requeue w now t)) r' m in
    elim came [ inl n ↦ left_or_spent now r' (requeue_complete w now t h r' n) spent | inr q ↦ q ]

-- A reaper's pass, of a batch as large as the table and with nobody between its statements, leaves
-- no lease abandoned at the instant of the pass.
pub reap_complete :
    (use_tz : Bool) (w : Worker) (c : Clock) (note : Option String → String) (t : Table)
    → length t ≤ w.reap_batch
    → (r' : OxTask) → In r' (reap use_tz w (λ k. c) note (λ x. x) (λ k x. x) t).0
    → is_stuck c.lease (c.lease - w.lock_timeout) r' ≡ false
unfolding reap reading
reap_complete true w c note t h r' m = reap_at w (reading true w c c c) c note t h r' m
reap_complete false w c note t h r' m = reap_at w (reading false w c c c) c note t h r' m
