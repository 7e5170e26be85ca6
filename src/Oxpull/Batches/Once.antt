-- ===== src/Oxpull/Batches/Once.antt =====
-- What a batch goes through: its own operations, of any number of sessions, and whatever becomes of
-- the task table between them.
use django_ox.Prelude.{
  ℕ, ◌≡◌, refl, Bool, true, false, ◌==◌, ◌⊎◌, ◌-◌, arith, Option, none, some, Option-cases,
  Bool-cases, inl, inr,
}
use django_ox.Store.{Table, Status, failed}
use django_ox.Waiting.{Call}
use django_ox.Oxpull.Batches.{
  Batch, complete, Enqueued, add, seal, complete_once, finish, completed_row, enqueue_callback,
  completed, nothing_to_do, refused, batch_sealed, is_sealed, member_task_counts, pending_count,
  counted_rows, total_of, success_call, callback_refused,
}

-- One transaction that commits, the batch's own or another's.
pub data Change (b : Batch) : Batch → Type 0 where
  adds : (e : Enqueued) → Change b (add e b).0
  seals : (scheduled : Bool) (now : ℕ) → Change b (seal scheduled now b).0
  reconciles :
      (accepts : Call → Bool) (id1 id2 now : ℕ) → Change b (complete_once accepts id1 id2 now b).0
  others : (t : Table) → Change b (record b { tasks = t })

pub data After (b : Batch) : Batch → Type 0 where
  start : After b b
  on : {c d : Batch} → After b c → Change c d → After b d

-- The row and the members of a batch that is complete stay as they are.
abbrev IsFinal : Batch → Batch → Type 0
IsFinal b c = (c.row ≡ b.row) × (c.members ≡ b.members)

Change-IsFinal : (b c : Batch) → b.row.status ≡ complete → Change b c → IsFinal b c
unfolding add seal complete_once
Change-IsFinal b c e (adds k) = rw e (refl, refl)
Change-IsFinal b c e (seals scheduled now) = rw e (refl, refl)
Change-IsFinal b c e (reconciles accepts id1 id2 now) = rw e (refl, refl)
Change-IsFinal b c e (others t) = (refl, refl)

After-IsFinal : (b : Batch) → b.row.status ≡ complete → {c : Batch} → After b c → IsFinal b c
After-IsFinal b e start = (refl, refl)
After-IsFinal b e (on {c} {d} r k) =
    let h = After-IsFinal b e r in
    let q : c.row.status ≡ complete = cc in let n = Change-IsFinal c d q k in (cc, cc)

pub refused_call :
    (accepts : Call → Bool) (o : Option Call) (id now : ℕ) (t : Table)
    → enqueue_callback accepts o id now t ≡ none
    → (call : Call) × (accepts call ≡ false)
refused_call accepts none id now t h = absurd cc
refused_call accepts (some call) id now t h = elim (Bool-cases (accepts call)) [
  | inl e ↦ absurd (let k = rw e at h in cc)
  | inr e ↦ (call, e)
]

-- The two ends of `finish`: an enqueue is refused and nothing is written, or both callbacks are
-- enqueued and the row is complete.
abbrev pub Finishes :
    (accepts : Call → Bool) → (id1 id2 now : ℕ) → (counts : Status → ℕ) → Batch → Type 0
Finishes accepts id1 id2 now counts b =
    let fails = counts failed in
    let total = total_of b.row.total_count b.members in
    let unattributed = total - counted_rows counts in
    (callback : Option ℕ) × (t1 : Table) × (success : Option ℕ) × (t2 : Table) × (enqueue_callback
        accepts (success_call fails unattributed b.row.on_success) id2 now t1
      ≡ some (success, t2))
    × (finish accepts id1 id2 now counts b ≡ (
      record b { row = completed_row now fails total callback success b.row; tasks = t2 },
      completed fails unattributed,
    ))

pub finish_cases :
    (accepts : Call → Bool) (id1 id2 now : ℕ) (counts : Status → ℕ) (b : Batch)
    → ((finish accepts id1 id2 now counts b ≡ (b, refused callback_refused))
        × ((call : Call) × (accepts call ≡ false)))
      ⊎ Finishes accepts id1 id2 now counts b
unfolding finish
finish_cases accepts id1 id2 now counts b =
    elim (Option-cases (enqueue_callback accepts b.row.on_complete id1 now b.tasks)) [
      | inl e ↦ inl (rw (finish, e) refl, refused_call accepts b.row.on_complete id1 now b.tasks e)
      | inr ((callback, t1), e) ↦
          let call =
            success_call (counts failed)
              (total_of b.row.total_count b.members - counted_rows counts) b.row.on_success in
          elim (Option-cases (enqueue_callback accepts call id2 now t1)) [
            | inl q ↦ inl (rw (finish, e, q) refl, refused_call accepts call id2 now t1 q)
            | inr ((success, t2), q) ↦ inr (callback, t1, success, t2, q, rw (finish, e, q) refl)
          ]
    ]

-- Completing needs a sealed row and nothing pending.
pub complete_once_cases :
    (accepts : Call → Bool) (id1 id2 now fails unattributed : ℕ) (b : Batch)
    → (complete_once accepts id1 id2 now b).1 ≡ completed fails unattributed
    → let counts = member_task_counts b.members b.tasks in
      (is_sealed b.row.status ≡ true)
      × (pending_count counts ≡ 0)
      × (complete_once accepts id1 id2 now b ≡ finish accepts id1 id2 now counts b)
      × Finishes accepts id1 id2 now counts b
unfolding complete_once
complete_once_cases accepts id1 id2 now fails unattributed b h =
    let counts = member_task_counts b.members b.tasks in
    elim (Bool-cases (is_sealed b.row.status)) [
      | inr e ↦ absurd (let q = rw e at h in cc)
      | inl e ↦ elim (Bool-cases (pending_count counts == 0)) [
        | inr q ↦ absurd (let k = rw (e, q) at h in cc)
        | inl q ↦ elim (finish_cases accepts id1 id2 now counts b) [
          | inl (f, n) ↦ absurd (let k = rw (e, q, f) at h in cc)
          | inr f ↦ rw (e, q) (refl, ground arith, refl, f)
        ]
      ]
    ]

pub complete_once-completes :
    (accepts : Call → Bool) (id1 id2 now fails unattributed : ℕ) (b : Batch)
    → (complete_once accepts id1 id2 now b).1 ≡ completed fails unattributed
    → (complete_once accepts id1 id2 now b).0.row.status ≡ complete
unfolding completed_row
complete_once-completes accepts id1 id2 now fails unattributed b h =
    let (s, p, e, (callback, t1, success, t2, q, f)) =
      complete_once_cases accepts id1 id2 now fails unattributed b h in
    rw (e, f) refl

-- After a completion of the batch, whatever other sessions do to it and to the task table: no
-- reconciler completes it again or enqueues a callback, no task is added to it, and its row and
-- members are what the completion left.
pub completes_once :
    (accepts again : Call → Bool) (id1 id2 now id1' id2' now' fails unattributed : ℕ) (b c : Batch)
    → (e : Enqueued) → (complete_once accepts id1 id2 now b).1 ≡ completed fails unattributed
    → After (complete_once accepts id1 id2 now b).0 c
    → (complete_once again id1' id2' now' c ≡ (c, nothing_to_do))
      × (add e c ≡ (c, refused batch_sealed))
      × (c.row ≡ (complete_once accepts id1 id2 now b).0.row)
      × (c.members ≡ (complete_once accepts id1 id2 now b).0.members)
unfolding complete_once add
completes_once accepts again id1 id2 now id1' id2' now' fails unattributed b c e h r =
    let s = complete_once-completes accepts id1 id2 now fails unattributed b h in
    let f = After-IsFinal (complete_once accepts id1 id2 now b).0 s r in
    let q : c.row.status ≡ complete = cc in (rw q refl, rw q refl, f.0, f.1)
