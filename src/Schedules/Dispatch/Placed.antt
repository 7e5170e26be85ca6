-- ===== src/Schedules/Dispatch/Placed.antt =====
-- The ticks of a schedule that anchors, and what deletes of tasks and of ticks leave of them.
use django_ox.Prelude.{
  ℕ, ◌<◌, ◌≡◌, refl, ap, ◌⊎◌, inl, inr, Bool, true, ◌||◌, Option, none, some, [], ◌∷◌, ◌==◌, map,
  select, Bool-cases, arith, All, All-map, In, here, there, select-In,
}
use django_ox.Schedules.{OxScheduleTick, Ticks, cleared, set_null}
use django_ox.Schedules.Earliest.{IsOther}
use django_ox.Schedules.Dispatch.{tick_row}

-- A later tick: it names a task, or none where one was deleted that it may have named.
abbrev pub IsFired : (gone : ℕ → Bool) → Option ℕ → Type 0
IsFired gone task = (id : ℕ) × ((task ≡ some id) ⊎ ((task ≡ none) × (gone id ≡ true)))

-- The rows of the key: the anchor, and the later ticks.
abbrev pub IsPlaced : (gone : ℕ → Bool) → (key anchor : ℕ) → OxScheduleTick → Type 0
IsPlaced gone key anchor r =
    (r.schedule_name == key) ≡ true
    → (r ≡ tick_row key anchor none) ⊎ ((anchor < r.scheduled_for) × IsFired gone r.task_id)

abbrev pub IsAnchored : (gone : ℕ → Bool) → ℕ → Ticks → Type 0
IsAnchored gone key t =
    All (IsOther key) t
    ⊎ ((anchor : ℕ) × In (tick_row key anchor none) t × All (IsPlaced gone key anchor) t)

IsPlaced-grows :
    (gone more : ℕ → Bool) (key anchor : ℕ) (t : Ticks)
    → ((id : ℕ) → gone id ≡ true → more id ≡ true)
    → All (IsPlaced gone key anchor) t
    → All (IsPlaced more key anchor) t
IsPlaced-grows gone more key anchor t g =
    All-map (IsPlaced gone key anchor) (IsPlaced more key anchor)
      (λ r h k. elim (h k) [
        | inl e ↦ inl e
        | inr (lt, (id, inl e)) ↦ inr (lt, (id, inl e))
        | inr (lt, (id, inr (e, q))) ↦ inr (lt, (id, inr (e, g id q)))
      ])
      t

pub IsAnchored-grows :
    (gone more : ℕ → Bool) (key : ℕ) (t : Ticks)
    → ((id : ℕ) → gone id ≡ true → more id ≡ true)
    → IsAnchored gone key t
    → IsAnchored more key t
IsAnchored-grows gone more key t g (inl others) = inl others
IsAnchored-grows gone more key t g (inr (a, i, placed)) =
    inr (a, i, IsPlaced-grows gone more key a t g placed)

-- A DELETE of tasks leaves each later tick with its task, or without one that is gone.
set_null-IsFired :
    (gone more : ℕ → Bool) (task : Option ℕ)
    → IsFired gone task
    → IsFired (λ id. gone id || more id) (cleared more task)
set_null-IsFired gone more (some n) (id, inl e) = elim (Bool-cases (more n)) [
  | inl q ↦ rw q (n, inr (refl, ground arith))
  | inr q ↦ rw q (n, inl refl)
]
set_null-IsFired gone more none (id, inl e) = absurd cc
set_null-IsFired gone more (some n) (id, inr (e, q)) = absurd cc
set_null-IsFired gone more none (id, inr (e, q)) = (id, inr (refl, ground arith))

set_null-IsPlaced :
    (gone more : ℕ → Bool) (key anchor : ℕ) (t : Ticks)
    → All (IsPlaced gone key anchor) t
    → All (IsPlaced (λ id. gone id || more id) key anchor) (map (set_null more) t)
set_null-IsPlaced gone more key anchor [] h = tt
set_null-IsPlaced gone more key anchor (r ∷ t) h = (
  λ k. elim (h.0 k) [
    | inl e ↦ inl (ap (set_null more) e)
    | inr (lt, f) ↦ inr (lt, set_null-IsFired gone more r.task_id f)
  ],
  set_null-IsPlaced gone more key anchor t h.1,
)

set_null-IsOther :
    (more : ℕ → Bool) (key : ℕ) (t : Ticks)
    → All (IsOther key) t
    → All (IsOther key) (map (set_null more) t)
set_null-IsOther more key [] h = tt
set_null-IsOther more key (r ∷ t) h = (h.0, set_null-IsOther more key t h.1)

set_null-In :
    (more : ℕ → Bool) (key anchor : ℕ) (t : Ticks)
    → In (tick_row key anchor none) t
    → In (tick_row key anchor none) (map (set_null more) t)
set_null-In more key anchor [] i = elim i [ ]
set_null-In more key anchor (r ∷ t) here = here
set_null-In more key anchor (r ∷ t) (there i) = there (set_null-In more key anchor t i)

pub deletes-IsAnchored :
    (gone more : ℕ → Bool) (key : ℕ) (t : Ticks)
    → IsAnchored gone key t
    → IsAnchored (λ id. gone id || more id) key (map (set_null more) t)
deletes-IsAnchored gone more key t (inl others) = inl (set_null-IsOther more key t others)
deletes-IsAnchored gone more key t (inr (a, i, placed)) =
    inr (a, set_null-In more key a t i, set_null-IsPlaced gone more key a t placed)

All-select :
    (P : OxScheduleTick → Type 0) (p : OxScheduleTick → Bool) (t : Ticks)
    → All P t
    → All P (select p t)
All-select P p [] h = tt
All-select P p (r ∷ t) h = elim (Bool-cases (p r)) [
  | inl e ↦ rw e (h.0, All-select P p t h.1)
  | inr e ↦ rw e (All-select P p t h.1)
]

pub prunes-IsAnchored :
    (gone : ℕ → Bool) (key : ℕ) (p : OxScheduleTick → Bool) (t : Ticks)
    → ((at : ℕ) → p (tick_row key at none) ≡ true)
    → IsAnchored gone key t
    → IsAnchored gone key (select p t)
prunes-IsAnchored gone key p t h (inl others) = inl (All-select (IsOther key) p t others)
prunes-IsAnchored gone key p t h (inr (a, i, placed)) =
    inr (a, select-In p i (h a), All-select (IsPlaced gone key a) p t placed)
