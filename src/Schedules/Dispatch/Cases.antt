-- ===== src/Schedules/Dispatch/Cases.antt =====
-- The three ends of one schedule's dispatch: nothing is written, an anchor is, or a tick and its task.
use django_ox.Prelude.{
  ℕ, ◌≤◌, ◌≡◌, refl, ◌⊎◌, inl, inr, Bool, true, false, ◌&&◌, Option, none, some, [], ◌∷◌, ◌++◌, ltb,
  is_null, Bool-cases, Option-cases, arith,
}
use django_ox.Waiting.{Call, backend_enqueue}
use django_ox.Schedules.{
  Schedule, Log, OxScheduleTick, has_tick, TickRead, absent, unreadable, at, earliest_tick,
}
use django_ox.Schedules.Dispatch.{
  still_due, is_wanted, is_behind, is_late, last_of, Dispatched, anchored, fired, tick_row,
  anchor_at, fire, admit, transact, dispatch_one,
}

-- What one worker brings to one schedule: its snapshot, clocks and read, and the definition under the
-- lock.
pub record Pass : Type 0 where
  pub accepts : Call → Bool
  pub id : ℕ
  pub local_now : ℕ
  pub now : ℕ
  pub admitted_at : ℕ
  pub snapshot : Schedule
  pub current : Option Schedule
  pub scheduled_for : ℕ
  pub read : TickRead

abbrev pub dispatch : (ℕ → ℕ) → Pass → Log → Log × Dispatched
dispatch clock p l =
    dispatch_one clock p.accepts p.id p.local_now p.now p.admitted_at p.snapshot p.current
      p.scheduled_for p.read l

abbrev pub is_idle : Dispatched → Bool
is_idle anchored = false
is_idle (fired id) = false
is_idle _ = true

abbrev pub IsIdle : Log → Log × Dispatched → Type 0
IsIdle l r = (r.0 ≡ l) × (is_idle r.1 ≡ true)

abbrev pub tick_of : Pass → Schedule → Option ℕ → OxScheduleTick
tick_of p c task = tick_row c.key p.scheduled_for task

-- The first sighting, and the boundary that a later one keeps where no newer tick was read.
abbrev pub IsAnchoring : Pass → Schedule → Log → Log × Dispatched → Type 0
IsAnchoring p c l r =
    (r ≡ (record l { ticks = l.ticks ++ tick_of p c none ∷ [] }, anchored))
    × (earliest_tick c.key l.ticks ≡ absent)

abbrev pub IsFiring : Pass → Schedule → Log → Log × Dispatched → Type 0
IsFiring p c l r =
    (r ≡ (
      record {
        ticks = l.ticks ++ tick_of p c (some p.id) ∷ [];
        tasks = backend_enqueue p.id c.call p.now l.tasks;
      },
      fired p.id,
    ))
    × (last_of p.read ≡ none
        → c.anchors ≡ true
        → (anchor : ℕ) × (earliest_tick c.key l.ticks ≡ at anchor) × (anchor ≤ p.scheduled_for))

abbrev pub IsWritten : (ℕ → ℕ) → Pass → Log → Log × Dispatched → Type 0
IsWritten clock p l r =
    (c : Schedule) × (p.current ≡ some c)
    × (is_wanted p.snapshot p.scheduled_for p.now p.read ≡ true)
    × (still_due clock c p.scheduled_for p.local_now p.admitted_at ≡ true)
    × (has_tick c.key p.scheduled_for l.ticks ≡ false)
    × (IsAnchoring p c l r ⊎ IsFiring p c l r)

fire_cases :
    (p : Pass) (c : Schedule) (l : Log)
    → (last_of p.read ≡ none
        → c.anchors ≡ true
        → (anchor : ℕ) × (earliest_tick c.key l.ticks ≡ at anchor) × (anchor ≤ p.scheduled_for))
    → let r = fire p.accepts p.id p.now c p.scheduled_for l in IsIdle l r ⊎ IsFiring p c l r
unfolding fire
fire_cases p c l h = elim (Bool-cases (p.accepts c.call)) [
  | inl e ↦ rw e (inr (refl, h))
  | inr e ↦ rw e (inl (refl, refl))
]

TickRead-cases : (t : TickRead) → ((t ≡ absent) ⊎ (t ≡ unreadable)) ⊎ ((a : ℕ) × (t ≡ at a))
TickRead-cases absent = inl (inl refl)
TickRead-cases unreadable = inl (inr refl)
TickRead-cases (at a) = inr (a, refl)

widen {ℓ} : {A B C : Type ℓ} → A ⊎ B → A ⊎ (C ⊎ B)
widen (inl a) = inl a
widen (inr b) = inr (inr b)

admit_cases :
    (p : Pass) (c : Schedule) (l : Log)
    → let r = admit p.accepts p.id p.now c p.scheduled_for (last_of p.read) l in
      IsIdle l r ⊎ (IsAnchoring p c l r ⊎ IsFiring p c l r)
unfolding admit anchor_at
admit_cases p c l = elim (Bool-cases (is_null (last_of p.read) && c.anchors)) [
  | inr e ↦ rw e (widen (fire_cases p c l (λ h k. absurd (let q = rw (h, k) at e in cc))))
  | inl e ↦ elim (TickRead-cases (earliest_tick c.key l.ticks)) [
    | inl (inl q) ↦ rw (e, q) (inr (inl (refl, refl)))
    | inl (inr q) ↦ rw (e, q) (inl (refl, refl))
    | inr (a, q) ↦ elim (Bool-cases (ltb p.scheduled_for a)) [
      | inl k ↦ rw (e, q, k) (inl (refl, refl))
      | inr k ↦
          let r : admit p.accepts p.id p.now c p.scheduled_for (last_of p.read) l
              ≡ fire p.accepts p.id p.now c p.scheduled_for l =
            rw (e, q, k) refl in
          rw r (widen (fire_cases p c l (λ h j. (a, q, ground arith))))
    ]
  ]
]

pub dispatch_cases :
    (clock : ℕ → ℕ) (p : Pass) (l : Log)
    → let r = dispatch clock p l in IsIdle l r ⊎ IsWritten clock p l r
unfolding dispatch_one transact
dispatch_cases clock p l = elim (Bool-cases (is_wanted p.snapshot p.scheduled_for p.now p.read)) [
  | inr e ↦ rw e (inl (refl, refl))
  | inl e ↦
      let behind =
        is_behind (last_of p.read) p.scheduled_for
        && has_tick p.snapshot.key p.scheduled_for l.ticks in
      elim (Bool-cases behind) [
        | inl q ↦ rw (e, q) (inl (refl, refl))
        | inr q ↦ elim (Bool-cases (is_late p.now p.scheduled_for p.snapshot.starting_deadline)) [
          | inl k ↦ rw (e, q, k) (inl (refl, refl))
          | inr k ↦ elim (Option-cases p.current) [
            | inl n ↦ rw (e, q, k, n) (inl (refl, refl))
            | inr (c, n) ↦
                elim (Bool-cases (still_due clock c p.scheduled_for p.local_now p.admitted_at)) [
                  | inr s ↦ rw (e, q, k, n, s) (inl (refl, refl))
                  | inl s ↦ elim (Bool-cases (has_tick c.key p.scheduled_for l.ticks)) [
                    | inl t ↦ rw (e, q, k, n, s, t) (inl (refl, refl))
                    | inr t ↦ elim (admit_cases p c l) [
                      | inl i ↦ rw (e, q, k, n, s, t) (inl i)
                      | inr w ↦ rw (e, q, k, n, s, t) (inr (c, refl, refl, s, t, w))
                    ]
                  ]
                ]
          ]
        ]
      ]
]
