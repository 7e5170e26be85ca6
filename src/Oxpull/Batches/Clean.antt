-- ===== src/Oxpull/Batches/Clean.antt =====
-- What the counts of a batch say of its members: when on_success is enqueued, and how progress adds up.
use django_ox.Prelude.{
  ℕ, ◌+◌, ◌-◌, ◌≤◌, ◌≡◌, refl, ap, Bool, true, ◌&&◌, ◌==◌, Option, none, some, length, arith, All,
  Bool-cases, inl, inr, ◌⊎◌,
}
use django_ox.Store.{OxTask, Table, Status, failed, successful, lost, discarded, status_eq}
use django_ox.Store.Update.{UniqueKeys}
use django_ox.Waiting.{Call}
use django_ox.Oxpull.Batches.{
  Batch, open_, is_open, sum_over, all_statuses, member_task_counts, pending_count, counted_rows,
  total_of, success_call, enqueue_callback, complete_once, complete_if_finished, finish, sealed,
  complete, completed, completed_row, progress, unattributed_of,
}
use django_ox.Oxpull.Batches.Counting.{Reached, All-Reached, matched_among, sum_of_counts}
use django_ox.Oxpull.Batches.Once.{After, complete_once_cases, finish_cases}
use django_ox.Oxpull.Batches.Counted.{IsCounted, IsDistinct, After-IsCounted, sealed_not_open}

abbrev pub is_successful : OxTask → Bool
is_successful r = status_eq r.status successful

-- An id comes back only for a call, which on_success has only where nothing failed or is missing.
pub success_call-clean :
    (accepts : Call → Bool) (fails unattributed id id2 now : ℕ) (on_success : Option Call)
    → (t1 t2 : Table)
    → enqueue_callback accepts (success_call fails unattributed on_success) id2 now t1
      ≡ some (some id, t2)
    → (fails ≡ 0) × (unattributed ≡ 0)
success_call-clean accepts fails unattributed id id2 now on_success t1 t2 h =
    elim (Bool-cases (fails == 0 && unattributed == 0)) [
      | inl e ↦ (ground arith, ground arith)
      | inr e ↦ absurd (let k = rw e at h in cc)
    ]

-- With nothing pending and nothing failed, the rows counted are the successful ones.
counted_clean :
    (counts : Status → ℕ)
    → pending_count counts ≡ 0
    → counts failed ≡ 0
    → counted_rows counts ≡ counts successful
unfolding pending_count counted_rows
counted_clean counts p f = omega arith

clean_members :
    (accepts : Call → Bool) (id1 id2 now fails unattributed id : ℕ) (b : Batch)
    → IsCounted b
    → UniqueKeys b.tasks
    → (complete_once accepts id1 id2 now b).1 ≡ completed fails unattributed
    → (complete_once accepts id1 id2 now b).0.row.success_task_id ≡ some id
    → All (Reached is_successful b.tasks) b.members
unfolding completed_row member_task_counts
clean_members accepts id1 id2 now fails unattributed id b w u h k =
    let counts = member_task_counts b.members b.tasks in
    let (s, p, e, (callback, t1, success, t2, q, f)) =
      complete_once_cases accepts id1 id2 now fails unattributed b h in
    let enqueued : success ≡ some id = rw (e, f) at k in
    let shut = sealed_not_open b.row.status s in
    let clean =
      success_call-clean accepts (counts failed)
        (total_of b.row.total_count b.members - counted_rows counts) id id2 now b.row.on_success t1
        t2 (rw enqueued at q) in
    let short : length b.members - counted_rows counts ≡ 0 = rw (w.1 shut) at clean.1 in
    let same = counted_clean counts p clean.0 in
    All-Reached is_successful b.members b.tasks u (omega arith)

-- For a batch that was open with distinct members, such as a new one, whatever transactions of any
-- sessions then follow, and a task table with unique keys: if a completion enqueues on_success, every
-- member has its row and that row is SUCCESSFUL.
pub success_means_clean :
    (accepts : Call → Bool) (id1 id2 now fails unattributed id : ℕ) (made b : Batch)
    → made.row.status ≡ open_
    → IsDistinct made.members
    → After made b
    → UniqueKeys b.tasks
    → (complete_once accepts id1 id2 now b).1 ≡ completed fails unattributed
    → (complete_once accepts id1 id2 now b).0.row.success_task_id ≡ some id
    → All (Reached is_successful b.tasks) b.members
success_means_clean accepts id1 id2 now fails unattributed id made b o d r u h k =
    let w = After-IsCounted (d, λ e. absurd (let start = ap is_open o in cc)) r in
    clean_members accepts id1 id2 now fails unattributed id b w u h k

pending_sum :
    (counts : Status → ℕ)
    → pending_count counts + counts successful + counts failed + counts lost + counts discarded
      ≡ sum_over counts all_statuses
unfolding pending_count
pending_sum counts = omega arith

-- With the row sealed, nothing pending in either count and callbacks that can be enqueued: the
-- reconciler completes the batch, and records the failures of its second count.
pub settled_completes :
    (accepts : Call → Bool) (id1 id2 now : ℕ) (seen held : Batch)
    → held.row.status ≡ sealed
    → pending_count (member_task_counts seen.members seen.tasks) ≡ 0
    → pending_count (member_task_counts held.members held.tasks) ≡ 0
    → ((call : Call) → accepts call ≡ true)
    → let r = complete_if_finished accepts id1 id2 now seen held in
      let fails = member_task_counts held.members held.tasks failed in
      (r.0.row.status ≡ complete)
      × (r.0.row.failed_count ≡ some fails)
      × ((unattributed : ℕ) × (r.1 ≡ completed fails unattributed))
unfolding complete_if_finished complete_once completed_row
settled_completes accepts id1 id2 now seen held s p q a =
    let counts = member_task_counts held.members held.tasks in
    let r : complete_if_finished accepts id1 id2 now seen held
        ≡ finish accepts id1 id2 now counts held =
      rw (p, s, q) refl in
    elim (finish_cases accepts id1 id2 now counts held) [
      | inl (e, (call, n)) ↦ absurd (let y = a call in cc)
      | inr (callback, t1, success, t2, x, f) ↦ rw (r, f) (refl, refl, (_, refl))
    ]

-- For a task table with unique keys, read while the batch is open, or when the members are the ones
-- that its total was frozen with: what is pending, succeeded or failed is within the total, and the
-- total has at least the LOST and DISCARDED rows besides.
pub progress_adds_up :
    (now later : Batch)
    → UniqueKeys later.tasks
    → (now.row.total_count ≡ none) ⊎ (now.row.total_count ≡ some (length later.members))
    → let p = progress now later in
      (p.pending + p.succeeded + p.failed ≤ p.total)
      × (member_task_counts later.members later.tasks lost
            + member_task_counts later.members later.tasks discarded
          ≤ unattributed_of p)
unfolding progress
progress_adds_up now later u w =
    let counts = member_task_counts later.members later.tasks in
    let sum = pending_sum counts in
    let all = sum_of_counts later.members later.tasks in
    let most = matched_among (λ r. true) later.members later.tasks u in
    elim w [ inl e ↦ rw e (ground arith, ground arith) | inr e ↦ rw e (omega arith, omega arith) ]
