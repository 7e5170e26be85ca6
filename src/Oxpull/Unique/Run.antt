-- ===== src/Oxpull/Unique/Run.antt =====
-- _enqueue_unique as a whole makes such transactions, and its answer names a task that pends.
use django_ox.Prelude.{
  ℕ, zero, suc, ◌≡◌, refl, Bool, true, ◌&&◌, [], In, head?, select, Bool-cases, Option-cases, inl,
  inr, ◌⊎◌,
}
use django_ox.Store.{OxTask}
use django_ox.Waiting.{Call, new_row}
use django_ox.Oxpull.Unique.{
  is_pending, Locked, has_key, take_key, is_held, resolve_conflict, Resolved, existing, again,
  enqueue_unique_from, enqueue_unique, max_unique_attempts,
}
use django_ox.Oxpull.Unique.Pending.{takes, releases, Moves, start, on, one_pending}

module _ (is_unique : OxTask → Bool) (digest : OxTask → ℕ) where
  Moves-trans :
      {s t u : Locked}
      → Moves is_unique digest s t
      → Moves is_unique digest t u
      → Moves is_unique digest s u
  Moves-trans r start = r
  Moves-trans r (on q k) = on (Moves-trans r q) k

  resolve-Moves :
      (locks : Bool) (key : ℕ) (read held s : Locked)
      → Moves is_unique digest s (resolve_conflict locks key read held s).0
  unfolding resolve_conflict
  resolve-Moves locks key read held s =
      elim (Option-cases (head? (select (has_key key) read.locks))) [
        | inl e ↦ rw (resolve_conflict, e) start
        | inr (lock, e) ↦ elim (Bool-cases (is_held held.tasks lock.task_id)) [
          | inl h ↦ rw (resolve_conflict, e, h) start
          | inr h ↦ elim (Bool-cases (locks && is_held s.tasks lock.task_id)) [
            | inl k ↦ rw (resolve_conflict, e, h, k) start
            | inr k ↦ rw (resolve_conflict, e, h, k) (on start (releases lock))
          ]
        ]
      ]

  resolved_cases : (r : Resolved) → ((id : ℕ) × (r ≡ existing id)) ⊎ (r ≡ again)
  resolved_cases (existing id) = inl (id, refl)
  resolved_cases again = inr refl

  from-Moves :
      (locks : Bool) (ids : ℕ → ℕ) (call : Call) (now : ℕ) (others : ℕ → Locked → Locked)
      (k tries : ℕ) (s : Locked)
      → ((j : ℕ) (x : Locked) → Moves is_unique digest x (others j x))
      → Moves is_unique digest s (enqueue_unique_from locks digest ids call now others k tries s).0
  unfolding enqueue_unique_from
  from-Moves locks ids call now others k zero s o = start
  from-Moves locks ids call now others k (suc tries) s o =
      let s1 = others k s in
      let read = others (suc k) s1 in
      let held = others (suc (suc k)) read in
      let s2 = others (suc (suc (suc k))) held in
      let key = digest (new_row (ids k) call now) in
      let r = resolve_conflict locks key read held s2 in
      let before : Moves is_unique digest s s2 =
        Moves-trans (Moves-trans (Moves-trans (o k s) (o (suc k) s1)) (o (suc (suc k)) read))
          (o (suc (suc (suc k))) held) in
      let through = Moves-trans before (resolve-Moves locks key read held s2) in
      elim (Option-cases (take_key digest (ids k) call now s1)) [
        | inr (s', e) ↦ rw (enqueue_unique_from, e) (on (o k s) (takes (ids k) call now s' e))
        | inl e ↦ elim (resolved_cases r.1) [
          | inl (id, q) ↦ rw (enqueue_unique_from, e, q) through
          | inr q ↦
              rw (enqueue_unique_from, e, q)
                (Moves-trans through
                  (from-Moves locks ids call now others (suc (suc (suc (suc k)))) tries r.0 o))
        ]
      ]

-- After any transactions on an empty database, and then an enqueue of a unique task with any such
-- transactions of other sessions between its statements: two pending rows of unique tasks with one key are
-- one task. The transactions are enqueues of unique tasks; deletes of a lock by a session that read it at
-- any time; and writes of the task table after which each pending row of a unique task was pending before
-- under its id and key, or has its lock. So the retry of a unique task whose lock was deleted is not among
-- them, while any write for other tasks is.
pub unique_while_pending :
    (is_unique : OxTask → Bool) (digest : OxTask → ℕ) (locks : Bool) (ids : ℕ → ℕ) (call : Call)
    (now : ℕ) (others : ℕ → Locked → Locked) (s : Locked) (a b : OxTask)
    → Moves is_unique digest (record { locks = []; tasks = [] }) s
    → ((j : ℕ) (x : Locked) → Moves is_unique digest x (others j x))
    → let s' = (enqueue_unique locks digest ids call now others s).0 in
      In a s'.tasks
      → In b s'.tasks
      → is_unique a ≡ true
      → is_unique b ≡ true
      → is_pending a ≡ true
      → is_pending b ≡ true
      → digest a ≡ digest b
      → a.id ≡ b.id
unfolding enqueue_unique
unique_while_pending is_unique digest locks ids call now others s a b r o m n v z p q e =
    one_pending is_unique digest a b
      (Moves-trans is_unique digest r
        (from-Moves is_unique digest locks ids call now others 0 max_unique_attempts s o))
      m n v z p q e
