-- ===== src/Schedules/Dispatch/Count.antt =====
-- What a whole pass returns.
use django_ox.Prelude.{
  ℕ, ◌+◌, ◌≡◌, refl, ◌⊎◌, inl, inr, Bool, true, Option, List, [], ◌∷◌, length, length-append, arith,
}
use django_ox.Waiting.{Call, backend_enqueue, new_row}
use django_ox.Schedules.{Schedule, Ticks, Log, latest_tick}
use django_ox.Schedules.Dispatch.{
  Dispatched, skipped, dropped, not_admitted, tick_unreadable, lost_race, failed_, anchored, fired,
}
use django_ox.Schedules.Dispatch.Sweep.{
  count_of, due_ticks, oldest, dispatch_due, dispatch_schedules,
}
use django_ox.Schedules.Dispatch.Cases.{Pass, dispatch, dispatch_cases, is_idle}

due_cases :
    (ps : List (Schedule × ℕ))
    → (ps ≡ []) ⊎ ((q : Schedule × ℕ) × (qs : List (Schedule × ℕ)) × (ps ≡ q ∷ qs))
due_cases [] = inl refl
due_cases (q ∷ qs) = inr (q, qs, refl)

idle-count_of : (d : Dispatched) → is_idle d ≡ true → count_of d ≡ 0
idle-count_of skipped h = refl
idle-count_of dropped h = refl
idle-count_of not_admitted h = refl
idle-count_of tick_unreadable h = refl
idle-count_of lost_race h = refl
idle-count_of failed_ h = refl
idle-count_of anchored h = cc
idle-count_of (fired id) h = cc

one_counts :
    (clock : ℕ → ℕ) (p : Pass) (l : Log)
    → length (dispatch clock p l).0.tasks ≡ count_of (dispatch clock p l).1 + length l.tasks
unfolding backend_enqueue
one_counts clock p l = elim (dispatch_cases clock p l) [
  | inl i ↦ rw (i.0, idle-count_of (dispatch clock p l).1 i.1) (omega arith)
  | inr (c, e, w, s, h, inl a) ↦ rw a.0 (omega arith)
  | inr (c, e, w, s, h, inr f) ↦
      rw f.0 (omega (arith, length-append l.tasks (new_row p.id c.call p.now ∷ [])))
]

due_counts :
    (clock : ℕ → ℕ) (accepts : Call → Bool) (next admitted : ℕ → ℕ)
    → (refreshed : Schedule → Option Schedule) (local_now now since : ℕ) (snapshot : Ticks)
    → (ps : List (Schedule × ℕ)) (l : Log)
    → let r =
        dispatch_due clock accepts next admitted refreshed local_now now since snapshot ps l in
      length r.0.tasks ≡ r.1 + length l.tasks
unfolding dispatch_due
due_counts clock accepts next admitted refreshed local_now now since snapshot [] l = omega arith
due_counts clock accepts next admitted refreshed local_now now since snapshot (p ∷ ps) l =
    let pass : Pass = record {
      accepts = accepts;
      id = next p.0.key;
      local_now = local_now;
      now = now;
      admitted_at = admitted p.0.key;
      snapshot = p.0;
      current = refreshed p.0;
      scheduled_for = p.1;
      read = latest_tick p.0.key since snapshot;
    } in
    let one = one_counts clock pass l in
    let rest =
      due_counts clock accepts next admitted refreshed local_now now since snapshot ps
        (dispatch clock pass l).0 in
    omega arith

-- A pass that no other worker interrupts: what dispatch_schedules returns is the number of tasks that it
-- has enqueued.
pub dispatch_schedules-counts :
    (clock : ℕ → ℕ) (accepts : Call → Bool) (next admitted : ℕ → ℕ)
    → (refreshed : Schedule → Option Schedule) (local_now now : ℕ) (schedules : List Schedule)
    → (l : Log)
    → let r = dispatch_schedules clock accepts next admitted refreshed local_now now schedules l in
      length r.0.tasks ≡ r.1 + length l.tasks
unfolding dispatch_schedules
dispatch_schedules-counts clock accepts next admitted refreshed local_now now schedules l =
    elim (due_cases (due_ticks clock local_now now schedules)) [
      | inl e ↦ rw (dispatch_schedules, e) (omega arith)
      | inr (p, ps, e) ↦
          rw (dispatch_schedules, e)
            (due_counts clock accepts next admitted refreshed local_now now (oldest p.1 ps) l.ticks
              (p ∷ ps) l)
    ]
