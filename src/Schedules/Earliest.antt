-- ===== src/Schedules/Earliest.antt =====
-- What the first row of a key says of the log.
use django_ox.Prelude.{
  ℕ, ◌≡◌, refl, inl, inr, true, false, Option, none, some, [], ◌∷◌, leb, ◌==◌, Bool-cases,
  Option-cases, All, In, here, there,
}
use django_ox.Schedules.{OxScheduleTick, Ticks, earliest, tick_read, absent, at}

-- A row of another key.
abbrev pub IsOther : ℕ → OxScheduleTick → Type 0
IsOther key r = (r.schedule_name == key) ≡ false

pub earliest-none : (key : ℕ) (t : Ticks) → earliest key t ≡ none → All (IsOther key) t
unfolding earliest
earliest-none key [] h = tt
earliest-none key (r ∷ t) h = elim (Bool-cases (r.schedule_name == key)) [
  | inl e ↦ absurd (let x = rw e at h in cc)
  | inr e ↦ (e, earliest-none key t (rw e at h))
]

pub earliest-In :
    (key : ℕ) (t : Ticks) (x : OxScheduleTick)
    → earliest key t ≡ some x
    → In x t × ((x.schedule_name == key) ≡ true)
unfolding earliest
earliest-In key [] x h = cc
earliest-In key (r ∷ t) x h = elim (Bool-cases (r.schedule_name == key)) [
  | inr e ↦ let (i, k) = earliest-In key t x (rw e at h) in (there i, k)
  | inl e ↦ elim (Option-cases (earliest key t)) [
    | inl n ↦ let same : x ≡ r = let y = rw (e, n) at h in cc in rw same (here, e)
    | inr (y, n) ↦ elim (Bool-cases (leb r.scheduled_for y.scheduled_for)) [
      | inl b ↦ let same : x ≡ r = let z = rw (e, n, b) at h in cc in rw same (here, e)
      | inr b ↦
          let same : x ≡ y = let z = rw (e, n, b) at h in cc in
          let (i, k) = earliest-In key t y n in rw same (there i, k)
    ]
  ]
]

pub tick_read-absent : (o : Option OxScheduleTick) → tick_read o ≡ absent → o ≡ none
tick_read-absent none h = refl
tick_read-absent (some r) h = elim (Bool-cases r.reads) [
  | inl e ↦ absurd (let x = rw e at h in cc)
  | inr e ↦ absurd (let x = rw e at h in cc)
]

pub tick_read-at :
    (o : Option OxScheduleTick) (a : ℕ)
    → tick_read o ≡ at a
    → (r : OxScheduleTick) × (o ≡ some r) × (r.scheduled_for ≡ a)
tick_read-at none a h = cc
tick_read-at (some r) a h = elim (Bool-cases r.reads) [
  | inl e ↦ (r, refl, let x = rw e at h in cc)
  | inr e ↦ absurd (let x = rw e at h in cc)
]
