-- ===== src/Schedules/Dispatch/Anchor.antt =====
-- A schedule that carries no start_time: the first worker that sees it records the tick at hand without
-- firing, and ticks fire from there on.
use django_ox.Prelude.{
  ℕ, ◌≤◌, ◌<◌, ◌≡◌, refl, ap, inl, inr, true, false, ◌&&◌, none, some, [], ◌∷◌, ◌++◌, leb, ◌==◌,
  Bool-cases, Option-cases, arith, All-In, All-append, All-map, ◌≢◌, In, In-append, In-last, any-In,
  Bool, ◌||◌, not, select,
}
use django_ox.Store.{Table}
use django_ox.Schedules.{
  Schedule, OxScheduleTick, Ticks, Log, is_tick, has_tick, earliest, earliest_tick, TickRead,
  absent, delete_tasks, delete_ticks,
}
use django_ox.Schedules.Earliest.{
  IsOther, earliest-none, earliest-In, tick_read-absent, tick_read-at,
}
use django_ox.Schedules.Dispatch.{
  Dispatched, is_wanted, is_covered, is_before, is_after, is_unreadable, last_of,
}
use django_ox.Schedules.Dispatch.Placed.{
  IsPlaced, IsAnchored, IsAnchored-grows, deletes-IsAnchored, prunes-IsAnchored,
}
use django_ox.Schedules.Dispatch.Cases.{Pass, dispatch, dispatch_cases, tick_of, IsFiring}

-- A pass over the key: it anchors, and the newest tick that it read is one of the log's and not ahead
-- of its clock.
abbrev pub IsSteady : ℕ → Pass → Ticks → Type 0
IsSteady key p t =
    (c : Schedule)
    → p.current ≡ some c
    → c.key ≡ key
    → (c.anchors ≡ true)
      × ((last : ℕ)
          → last_of p.read ≡ some last
          → (last ≤ p.now)
            × ((r : OxScheduleTick) × In r t
                × ((r.schedule_name == key) ≡ true)
                × (r.scheduled_for ≡ last)))

pub data Move (clock : ℕ → ℕ) (key : ℕ) (l : Log) : Log → Type 0 where
  dispatches : (p : Pass) → IsSteady key p l.ticks → Move clock key l (dispatch clock p l).0
  runs : (tasks : Table) → Move clock key l (record l { tasks = tasks })
  deletes : (gone : ℕ → Bool) → Move clock key l (delete_tasks gone l)
  prunes :
      (is_old : ℕ → ℕ → Bool)
      → ((at : ℕ) → is_old key at ≡ false)
      → Move clock key l (delete_ticks is_old l)

pub data Moves (clock : ℕ → ℕ) (key : ℕ) (l : Log) : Log → Type 0 where
  start : Moves clock key l l
  on : {m n : Log} → Moves clock key l m → Move clock key m n → Moves clock key l n

-- The tasks that were deleted, beside those that were gone before.
abbrev pub deleted_by : {clock : ℕ → ℕ} {key : ℕ} {l m : Log} → Move clock key l m → ℕ → Bool
deleted_by (dispatches p h) id = false
deleted_by (runs tasks) id = false
deleted_by (deletes gone) id = gone id
deleted_by (prunes is_old h) id = false

abbrev pub deleted :
    {clock : ℕ → ℕ} {key : ℕ} {l m : Log} → (ℕ → Bool) → Moves clock key l m → ℕ → Bool
deleted gone start id = gone id
deleted gone (on r k) id = deleted gone r id || deleted_by k id

anchoring-IsAnchored :
    (gone : ℕ → Bool) (key : ℕ) (p : Pass) (c : Schedule) (t : Ticks)
    → c.key ≡ key
    → earliest_tick c.key t ≡ absent
    → IsAnchored gone key (t ++ tick_of p c none ∷ [])
unfolding earliest_tick
anchoring-IsAnchored gone key p c t e h =
    let others = earliest-none c.key t (tick_read-absent (earliest c.key t) h) in
    rw (← e) (
      inr (
        p.scheduled_for,
        In-last t (tick_of p c none),
        All-append _ t (tick_of p c none)
            (All-map (IsOther c.key) (IsPlaced gone c.key p.scheduled_for)
              (λ r o k. absurd (ground arith)) t others)
            (λ k. inl refl),
      ))

-- The tick that fires is after the anchor.
firing-IsAnchored :
    (gone : ℕ → Bool) (key : ℕ) (p : Pass) (c : Schedule) (id : ℕ) (t : Ticks)
    → c.key ≡ key
    → ((r : OxScheduleTick) × In r t
        × ((r.schedule_name == key) ≡ true)
        × (r.scheduled_for ≤ p.scheduled_for))
    → has_tick c.key p.scheduled_for t ≡ false
    → IsAnchored gone key t
    → IsAnchored gone key (t ++ tick_of p c (some id) ∷ [])
unfolding has_tick
firing-IsAnchored gone key p c id t e (r, i, k, le) h (inl others) =
    absurd (let x = All-In (IsOther key) i others in ground arith)
firing-IsAnchored gone key p c id t e (r, i, k, le) h (inr (a, m, placed)) =
    let low : a ≤ r.scheduled_for = elim (All-In (IsPlaced gone key a) i placed k) [
      | inl q ↦ let same = ap (λ (x : OxScheduleTick). x.scheduled_for) q in omega arith
      | inr (q, n) ↦ omega arith
    ] in
    let apart : a ≢ p.scheduled_for = λ q.
      let found : has_tick c.key p.scheduled_for t ≡ true =
        any-In (is_tick c.key p.scheduled_for) m (ground (arith, e)) in
      absurd (let x = rw found at h in cc) in
    inr (
      a,
      In-append t _ m,
      All-append (IsPlaced gone key a) t (tick_of p c (some id)) placed
          (λ q. inr (omega arith, (id, inl refl))),
    )

other-IsAnchored :
    (gone : ℕ → Bool) (key : ℕ) (t : Ticks) (r : OxScheduleTick)
    → (r.schedule_name == key) ≡ false
    → IsAnchored gone key t
    → IsAnchored gone key (t ++ r ∷ [])
other-IsAnchored gone key t r e (inl others) = inl (All-append (IsOther key) t r others e)
other-IsAnchored gone key t r e (inr (a, m, placed)) = inr (
  a,
  In-append t _ m,
  All-append (IsPlaced gone key a) t r placed (λ k. absurd (let x = rw e at k in cc)),
)

uncovered :
    (s : Schedule) (t now : ℕ) (read : TickRead)
    → is_covered (last_of read) t now ≡ true
    → is_wanted s t now read ≡ false
unfolding is_wanted
uncovered s t now read e = elim (Bool-cases (is_before t s.start_time)) [
  | inl b ↦ rw b refl
  | inr b ↦ elim (Bool-cases (is_after t s.end_time)) [
    | inl a ↦ rw (b, a) refl
    | inr a ↦ elim (Bool-cases (is_unreadable read)) [
      | inl u ↦ rw (b, a, u) refl
      | inr u ↦ rw (b, a, u, e) refl
    ]
  ]
]

wanted_after :
    (s : Schedule) (t now last : ℕ) (read : TickRead)
    → is_wanted s t now read ≡ true
    → last_of read ≡ some last
    → last ≤ now
    → last < t
unfolding is_wanted
wanted_after s t now last read h n le = elim (Bool-cases (is_covered (last_of read) t now)) [
  | inl e ↦ absurd (let x = uncovered s t now read e in cc)
  | inr e ↦ let q : (leb t last && leb last now) ≡ false = rw n at e in ground arith
]

-- A firing pass that is steady has a row of the key at or before its tick.
firing_floor :
    (key : ℕ) (p : Pass) (c : Schedule) (l : Log) (r : Log × Dispatched)
    → IsSteady key p l.ticks
    → p.current ≡ some c
    → c.key ≡ key
    → is_wanted p.snapshot p.scheduled_for p.now p.read ≡ true
    → IsFiring p c l r
    → (x : OxScheduleTick) × In x l.ticks
      × ((x.schedule_name == key) ≡ true)
      × (x.scheduled_for ≤ p.scheduled_for)
unfolding earliest_tick
firing_floor key p c l r steady e k w f =
    let (anchors, read) = steady c e k in
    elim (Option-cases (last_of p.read)) [
      | inl n ↦
          let (a, q, le) = f.1 n anchors in
          let (x, o, same) = tick_read-at (earliest c.key l.ticks) a q in
          let (i, name) = earliest-In c.key l.ticks x o in (x, i, ground (arith, name), omega arith)
      | inr (last, n) ↦
          let (clock, (x, i, name, same)) = read last n in
          let after = wanted_after p.snapshot p.scheduled_for p.now last p.read w n clock in
          (x, i, name, omega arith)
    ]

dispatches-IsAnchored :
    (clock : ℕ → ℕ) (gone : ℕ → Bool) (key : ℕ) (l : Log) (p : Pass)
    → IsAnchored gone key l.ticks
    → IsSteady key p l.ticks
    → IsAnchored gone key (dispatch clock p l).0.ticks
dispatches-IsAnchored clock gone key l p w steady = elim (dispatch_cases clock p l) [
  | inl i ↦ rw i.0 w
  | inr (c, e, wanted, s, h, z) ↦ elim (Bool-cases (c.key == key)) [
    | inl k ↦
        let k' : c.key ≡ key = ground arith in
        elim z [
          | inl a ↦ rw a.0 (anchoring-IsAnchored gone key p c l.ticks k' a.1)
          | inr f ↦ rw f.0 (
              firing-IsAnchored gone key p c p.id l.ticks k'
                (firing_floor key p c l (dispatch clock p l) steady e k' wanted f) h w)
        ]
    | inr k ↦ elim z [
      | inl a ↦ rw a.0 (other-IsAnchored gone key l.ticks (tick_of p c none) k w)
      | inr f ↦ rw f.0 (other-IsAnchored gone key l.ticks (tick_of p c (some p.id)) k w)
    ]
  ]
]

Move-IsAnchored :
    (clock : ℕ → ℕ) (gone : ℕ → Bool) (key : ℕ) (l m : Log) (k : Move clock key l m)
    → IsAnchored gone key l.ticks
    → IsAnchored (λ id. gone id || deleted_by k id) key m.ticks
Move-IsAnchored clock gone key l m (runs tasks) w =
    IsAnchored-grows gone _ key l.ticks (λ id h. ground arith) w
Move-IsAnchored clock gone key l m (deletes more) w = deletes-IsAnchored gone more key l.ticks w
Move-IsAnchored clock gone key l m (prunes is_old h) w =
    let kept = select (λ r. not (is_old r.schedule_name r.scheduled_for)) l.ticks in
    IsAnchored-grows gone _ key kept (λ id k. ground arith)
      (prunes-IsAnchored gone key _ l.ticks (λ at. rw (h at) refl) w)
Move-IsAnchored clock gone key l m (dispatches p steady) w =
    IsAnchored-grows gone _ key (dispatch clock p l).0.ticks (λ id k. ground arith)
      (dispatches-IsAnchored clock gone key l p w steady)

-- If the log has no tick of a schedule, or an anchor without a task and besides it only later ticks, each
-- with its task or without one where a DELETE took a task, that stays so. The passes that follow are those
-- of workers for whom the schedule anchors and whose newest tick read is in the log and not ahead of their
-- clock; tasks run and are deleted between them, and ticks of other schedules are pruned.
pub anchors_first :
    {clock : ℕ → ℕ} {key : ℕ} {l m : Log} (gone : ℕ → Bool)
    → IsAnchored gone key l.ticks
    → (r : Moves clock key l m) → IsAnchored (deleted gone r) key m.ticks
anchors_first gone w start = w
anchors_first {clock} {key} gone w (on {m} {n} r k) =
    Move-IsAnchored clock (deleted gone r) key m n k (anchors_first gone w r)
