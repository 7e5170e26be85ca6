-- ===== src/Schedules/Dispatch/Due.antt =====
-- What the definition under the lock must say for a tick to fire.
use django_ox.Prelude.{
  ℕ, ◌+◌, ◌≤◌, ◌≡◌, true, false, not, some, ◌==◌, Bool-cases, Option-cases, inl, inr, arith,
}
use django_ox.Schedules.{Schedule, Log}
use django_ox.Schedules.Dispatch.{fired, still_due, is_before, is_after, is_late}
use django_ox.Schedules.Dispatch.Cases.{Pass, dispatch}
use django_ox.Schedules.Dispatch.Once.{fired_cases}

-- A bound that is kept by an instant.
abbrev pub IsDue : (ℕ → ℕ) → Schedule → (scheduled_for local_now now : ℕ) → Type 0
IsDue clock c t local_now now =
    ((tick : ℕ) × (c.trigger local_now ≡ some tick) × (clock tick ≡ t))
    × ((start : ℕ) → c.start_time ≡ some start → start ≤ t)
    × ((end_ : ℕ) → c.end_time ≡ some end_ → t ≤ end_)
    × ((deadline : ℕ) → c.starting_deadline ≡ some deadline → now ≤ t + deadline)

not_before : (t start : ℕ) → is_before t (some start) ≡ false → start ≤ t
not_before t start h = ground arith

not_after : (t end_ : ℕ) → is_after t (some end_) ≡ false → t ≤ end_
not_after t end_ h = ground arith

not_late : (t now deadline : ℕ) → not (is_late now t (some deadline)) ≡ true → now ≤ t + deadline
not_late t now deadline h = ground arith

still_due-IsDue :
    (clock : ℕ → ℕ) (c : Schedule) (t local_now now : ℕ)
    → still_due clock c t local_now now ≡ true
    → IsDue clock c t local_now now
unfolding still_due
still_due-IsDue clock c t local_now now h = elim (Option-cases (c.trigger local_now)) [
  | inl e ↦ absurd (let x = rw (still_due, e) at h in cc)
  | inr (tick, e) ↦ elim (Bool-cases (clock tick == t)) [
    | inr k ↦ absurd (let x = rw (still_due, e, k) at h in cc)
    | inl k ↦ elim (Bool-cases (is_before t c.start_time)) [
      | inl b ↦ absurd (let x = rw (still_due, e, k, b) at h in cc)
      | inr b ↦ elim (Bool-cases (is_after t c.end_time)) [
        | inl a ↦ absurd (let x = rw (still_due, e, k, b, a) at h in cc)
        | inr a ↦
            let x : not (is_late now t c.starting_deadline) ≡ true =
              rw (still_due, e, k, b, a) at h in
            (
              (tick, e, ground arith),
              (λ start q. not_before t start (rw q at b)),
              (λ end_ q. not_after t end_ (rw q at a)),
              (λ deadline q. not_late t now deadline (rw q at x)),
            )
      ]
    ]
  ]
]

-- If a tick fires: the definition as it stands under its lock still derives that very tick from the
-- pass's clock, and the tick is within its start, its end and, at the clock under the lock, its
-- starting deadline, whatever the snapshot said.
pub fires_in_time :
    (clock : ℕ → ℕ) (p : Pass) (c : Schedule) (id : ℕ) (l : Log)
    → p.current ≡ some c
    → (dispatch clock p l).1 ≡ fired id
    → IsDue clock c p.scheduled_for p.local_now p.admitted_at
fires_in_time clock p c id l e h =
    still_due-IsDue clock c p.scheduled_for p.local_now p.admitted_at
      (fired_cases clock p c id l e h).1
