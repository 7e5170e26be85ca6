-- ===== src/Schedules/Dispatch/Sweep.antt =====
-- The loops of Worker.dispatch_schedules in src/django_ox/worker.py.
use django_ox.Prelude.{ℕ, ◌+◌, Bool, Option, none, some, List, [], ◌∷◌, min}
use django_ox.Waiting.{Call}
use django_ox.Schedules.{Schedule, Ticks, Log, latest_tick}
use django_ox.Schedules.Dispatch.{due, Dispatched, fired, dispatch_one}

-- The oldest of the due ticks.
abbrev pub oldest : ℕ → List (Schedule × ℕ) → ℕ
oldest t [] = t
oldest t (p ∷ ps) = oldest (min t p.1) ps

abbrev pub count_of : Dispatched → ℕ
count_of (fired id) = 1
count_of _ = 0

module _ (clock : ℕ → ℕ) where
  -- The due ticks of the pass.
  unfoldable pub due_ticks : (local_now now : ℕ) → List Schedule → List (Schedule × ℕ)
  due_ticks local_now now [] = []
  due_ticks local_now now (s ∷ ss) =
      let rest = due_ticks local_now now ss in
      elim (due clock s local_now now) [ none ↦ rest | some t ↦ (s, t) ∷ rest ]

  -- The second loop. `refreshed` is refresh(), or the schedule itself where it has none; `snapshot` is
  -- the log that latest_ticks read; `next` draws the ids and `admitted` the clock under the lock.
  unfoldable pub dispatch_due :
      (accepts : Call → Bool)
      → (next admitted : ℕ → ℕ) → (refreshed : Schedule → Option Schedule)
      → (local_now now since : ℕ) → (snapshot : Ticks) → List (Schedule × ℕ)
      → Log
      → Log × ℕ
  dispatch_due accepts next admitted refreshed local_now now since snapshot [] l = (l, 0)
  dispatch_due accepts next admitted refreshed local_now now since snapshot (p ∷ ps) l =
      let s = p.0 in
      let (l', d) =
        dispatch_one clock accepts (next s.key) local_now now (admitted s.key) s (refreshed s) p.1
          (latest_tick s.key since snapshot) l in
      let (l'', n) =
        dispatch_due accepts next admitted refreshed local_now now since snapshot ps l' in
      (l'', count_of d + n)

  -- dispatch_schedules, in a pass that no other worker interrupts.
  unfoldable pub dispatch_schedules :
      (accepts : Call → Bool)
      → (next admitted : ℕ → ℕ) → (refreshed : Schedule → Option Schedule) → (local_now now : ℕ)
      → List Schedule
      → Log
      → Log × ℕ
  dispatch_schedules accepts next admitted refreshed local_now now schedules l =
      elim (due_ticks local_now now schedules) [
        | [] ↦ (l, 0)
        | p ∷ ps ↦
            dispatch_due accepts next admitted refreshed local_now now (oldest p.1 ps) l.ticks
              (p ∷ ps) l
      ]
