-- ===== src/Oxpull/Workflows/Reconcile/Fixpoint.antt =====
-- The cancellation of a tick reaches every node behind a dead one.
use django_ox.Prelude.{
  ℕ, zero, suc, ◌+◌, ◌≤◌, ◌≡◌, refl, ap, true, false, ◌==◌, inl, inr, none, Bool-cases, any,
  any-witness, arith,
}
use django_ox.Store.{Table, matched}
use django_ox.Store.Update.{UniqueKeys}
use django_ox.Actions.{discarded_row, update_chunk_size}
use django_ox.Actions.Ids.{chunks}
use django_ox.Waiting.{cancellable, cancel_many, move_pinned_chunks}
use django_ox.Waiting.Pinned.{pinned}
use django_ox.Waiting.Covers.{none_moved, moved_count, moved-UniqueKeys, is_in}
use django_ox.Oxpull.Batches.{sealed, is_sealed}
use django_ox.Oxpull.Workflows.{Flow}
use django_ox.Oxpull.Workflows.Cancel.{is_cancellable, doomed_pairs, cancel_level}
use django_ox.Oxpull.Workflows.Row.{Workflow}
use django_ox.Oxpull.Workflows.Reconcile.{
  cancel_one_level, cancel_levels, cancel_unreachable, cancel_within, any_cancellable,
  max_cancel_passes,
}
use django_ox.Oxpull.Workflows.Reconcile.Level.{level_moves}

-- A level that moves nothing leaves the tables, and a level that moves something leaves fewer rows
-- that are READY or WAITING.
level_counts :
    (key : ℕ → ℕ) (now workflow : ℕ) (f : Flow)
    → let r = cancel_level key now (λ k t. t) workflow f f f in
      (matched (is_in cancellable) r.0.tasks + r.1 ≡ matched (is_in cancellable) f.tasks)
      × (UniqueKeys f.tasks → UniqueKeys r.0.tasks)
      × (r.1 ≡ 0 → r.0 ≡ f)
unfolding cancel_level cancel_many discarded_row
level_counts key now workflow f =
    let pairs = pinned (λ s. none) key (doomed_pairs workflow f f) in
    let cs = chunks update_chunk_size pairs in
    let set_ = discarded_row now in
    let moves = move_pinned_chunks cancellable set_ (λ k t. t) 0 cs f.tasks in
    let count = moved_count cancellable set_ 0 cs f.tasks (λ x. refl) in
    let unique = moved-UniqueKeys cancellable set_ 0 cs f.tasks (λ x. refl) in
    elim (Bool-cases (moves.1 == 0)) [
      | inl e ↦
          let nothing : moves.1 ≡ 0 = ground arith in
          let (same, each) = none_moved cancellable set_ 0 cs f.tasks nothing in
          let steady : matched (is_in cancellable) moves.0 + 0
              ≡ matched (is_in cancellable) f.tasks =
            rw nothing at count in
          rw e (steady, unique, λ z. ap (λ (t : Table). record f { tasks = t }) same)
      | inr e ↦ rw e (count, unique, λ z. absurd (ground arith))
    ]

-- A level that moves nothing has no cancellable edge before it.
level_stuck :
    (key : ℕ → ℕ) (now workflow : ℕ) (f : Flow)
    → UniqueKeys f.tasks
    → (cancel_level key now (λ k t. t) workflow f f f).1 ≡ 0
    → any (is_cancellable workflow f) f.edges ≡ false
unfolding cancel_level
level_stuck key now workflow f u h =
    let moved =
      (cancel_many (λ s. none) key now (λ k t. t) (doomed_pairs workflow f f) f.tasks).1 in
    let none_moves : moved ≡ 0 = elim (Bool-cases (moved == 0)) [
      | inl e ↦ ground arith
      | inr e ↦ rw e at h
    ] in
    elim (Bool-cases (any (is_cancellable workflow f) f.edges)) [
      | inr e ↦ e
      | inl e ↦
          let (d, i, c) = any-witness (is_cancellable workflow f) f.edges e in
          absurd (level_moves key now workflow f d u i c none_moves)
    ]

levels_done :
    (fuel : ℕ) (key : ℕ → ℕ) (now : ℕ) (w : Workflow)
    → is_sealed w.row.status ≡ true
    → UniqueKeys w.flow.tasks
    → suc (matched (is_in cancellable) w.flow.tasks) ≤ fuel
    → any_cancellable (cancel_levels fuel key now w).0 ≡ false
unfolding cancel_levels cancel_one_level
levels_done zero key now w s u h = absurd (omega arith)
levels_done (suc fuel) key now w s u h =
    let r = cancel_level key now (λ k t. t) w.row.id w.flow w.flow w.flow in
    let (count, unique, same) = level_counts key now w.row.id w.flow in
    elim (Bool-cases (r.1 == 0)) [
      | inl e ↦
          let nothing : r.1 ≡ 0 = ground arith in
          rw (s, e, same nothing) (level_stuck key now w.row.id w.flow u nothing)
      | inr e ↦
          let some_moved : suc zero ≤ r.1 = ground arith in
          rw (s, e) (levels_done fuel key now (record w { flow = r.0 }) s (unique u) (omega arith))
    ]

within_done :
    (passes : ℕ) (key : ℕ → ℕ) (now : ℕ) (w : Workflow)
    → w.row.status ≡ sealed
    → UniqueKeys w.flow.tasks
    → suc (matched (is_in cancellable) w.flow.tasks) ≤ passes
    → any_cancellable (cancel_within passes key now w).0 ≡ false
unfolding cancel_within
within_done passes key now w s u h = elim (Bool-cases (any_cancellable w)) [
  | inr e ↦ rw e e
  | inl e ↦ rw e (levels_done passes key now w (rw s refl) u h)
]

-- With nothing else between, for a sealed workflow in a task table with unique keys that has fewer READY
-- and WAITING rows than a tick has passes: when the cancellation of a tick ends, no edge that is not
-- marked leads from an upstream that settled without succeeding to a READY or WAITING node.
pub cancels_whole_cone :
    (key : ℕ → ℕ) (now : ℕ) (w : Workflow)
    → w.row.status ≡ sealed
    → UniqueKeys w.flow.tasks
    → suc (matched (is_in cancellable) w.flow.tasks) ≤ max_cancel_passes
    → any_cancellable (cancel_unreachable key now w).0 ≡ false
unfolding cancel_unreachable
cancels_whole_cone key now w s u h = within_done max_cancel_passes key now w s u h
