-- ===== src/Schedules/Dispatch/Once.antt =====
-- Any number of workers that dispatch the same schedules: the unique constraint, and what a tick that
-- fired leaves to the passes after it.
use django_ox.Prelude.{
  ℕ, ◌≡◌, refl, ap, ◌⊎◌, inl, inr, true, false, ◌||◌, Option, none, some, [], ◌∷◌, ◌++◌, arith, In,
  In-append, In-last, any-In, ==_refl, not, map, select, select-In, here, there, Bool, Bool-cases,
}
use django_ox.Store.{Table}
use django_ox.Schedules.{
  Schedule, OxScheduleTick, Ticks, Log, is_tick, has_tick, cleared, set_null, delete_tasks,
  delete_ticks,
}
use django_ox.Schedules.Dispatch.{Dispatched, fired, still_due, tick_row}
use django_ox.Schedules.Dispatch.Cases.{Pass, dispatch, dispatch_cases, tick_of, IsIdle}

-- A transaction of a dispatcher, a DELETE of tasks or of ticks, or any other writes of the task table.
pub data Move (clock : ℕ → ℕ) (l : Log) : Log → Type 0 where
  dispatches : (p : Pass) → Move clock l (dispatch clock p l).0
  runs : (tasks : Table) → Move clock l (record l { tasks = tasks })
  deletes : (gone : ℕ → Bool) → Move clock l (delete_tasks gone l)
  prunes : (is_old : ℕ → ℕ → Bool) → Move clock l (delete_ticks is_old l)

pub data Moves (clock : ℕ → ℕ) (l : Log) : Log → Type 0 where
  start : Moves clock l l
  on : {m n : Log} → Moves clock l m → Move clock m n → Moves clock l n

-- What the moves leave of the task that a tick names.
abbrev pub cleared_by : {clock : ℕ → ℕ} {l m : Log} → Move clock l m → Option ℕ → Option ℕ
cleared_by (dispatches p) id = id
cleared_by (runs tasks) id = id
cleared_by (deletes gone) id = cleared gone id
cleared_by (prunes is_old) id = id

abbrev pub task_left : {clock : ℕ → ℕ} {l m : Log} → Moves clock l m → Option ℕ → Option ℕ
task_left start id = id
task_left (on r k) id = cleared_by k (task_left r id)

-- No prune takes the tick of the schedule and instant.
abbrev pub spares : {clock : ℕ → ℕ} {l m : Log} → (key at : ℕ) → Move clock l m → Bool
spares key at (dispatches p) = true
spares key at (runs tasks) = true
spares key at (deletes gone) = true
spares key at (prunes is_old) = not (is_old key at)

abbrev pub Spares : {clock : ℕ → ℕ} {l m : Log} → (key at : ℕ) → Moves clock l m → Type 0
Spares key at start = Unit
Spares key at (on r k) = Spares key at r × (spares key at k ≡ true)

-- ox_tick_uniq.
abbrev pub UniqueTicks : Ticks → Type 0
UniqueTicks [] = Unit
UniqueTicks (r ∷ t) = (has_tick r.schedule_name r.scheduled_for t ≡ false) × UniqueTicks t

has_tick-append :
    (key at : ℕ) (t : Ticks) (r : OxScheduleTick)
    → has_tick key at (t ++ r ∷ []) ≡ (has_tick key at t || is_tick key at r)
unfolding has_tick
has_tick-append key at [] r = ground arith
has_tick-append key at (x ∷ t) r = ground (arith, has_tick-append key at t r)

UniqueTicks-append :
    (t : Ticks) (r : OxScheduleTick)
    → UniqueTicks t
    → has_tick r.schedule_name r.scheduled_for t ≡ false
    → UniqueTicks (t ++ r ∷ [])
unfolding has_tick
UniqueTicks-append [] r u h = (refl, tt)
UniqueTicks-append (x ∷ t) r u h =
    let apart : is_tick r.schedule_name r.scheduled_for x ≡ false = ground arith in
    (
      ground (arith, has_tick-append x.schedule_name x.scheduled_for t r, u.0),
      UniqueTicks-append t r u.1 (ground arith),
    )

-- A dispatch leaves the log, or adds a tick that was not there.
ticks_cases :
    (clock : ℕ → ℕ) (p : Pass) (l : Log)
    → let m = (dispatch clock p l).0 in
      (m.ticks ≡ l.ticks)
      ⊎ ((r : OxScheduleTick) × (m.ticks ≡ l.ticks ++ r ∷ [])
          × (has_tick r.schedule_name r.scheduled_for l.ticks ≡ false))
ticks_cases clock p l = elim (dispatch_cases clock p l) [
  | inl i ↦ inl (ap (λ (k : Log). k.ticks) i.0)
  | inr (c, e, w, s, h, inl a) ↦
      inr (tick_of p c none, ap (λ (k : Log × Dispatched). k.0.ticks) a.0, h)
  | inr (c, e, w, s, h, inr f) ↦
      inr (tick_of p c (some p.id), ap (λ (k : Log × Dispatched). k.0.ticks) f.0, h)
]

has_tick-set_null :
    (gone : ℕ → Bool) (key at : ℕ) (t : Ticks)
    → has_tick key at (map (set_null gone) t) ≡ has_tick key at t
unfolding has_tick
has_tick-set_null gone key at [] = refl
has_tick-set_null gone key at (r ∷ t) = ground (arith, has_tick-set_null gone key at t)

UniqueTicks-set_null :
    (gone : ℕ → Bool) (t : Ticks) → UniqueTicks t → UniqueTicks (map (set_null gone) t)
UniqueTicks-set_null gone [] u = tt
UniqueTicks-set_null gone (r ∷ t) u = (
  rw (has_tick-set_null gone r.schedule_name r.scheduled_for t) u.0,
  UniqueTicks-set_null gone t u.1,
)

has_tick-select :
    (p : OxScheduleTick → Bool) (key at : ℕ) (t : Ticks)
    → has_tick key at t ≡ false
    → has_tick key at (select p t) ≡ false
unfolding has_tick
has_tick-select p key at [] h = refl
has_tick-select p key at (r ∷ t) h = ground (arith, has_tick-select p key at t)

UniqueTicks-select :
    (p : OxScheduleTick → Bool) (t : Ticks) → UniqueTicks t → UniqueTicks (select p t)
UniqueTicks-select p [] u = tt
UniqueTicks-select p (r ∷ t) u = elim (Bool-cases (p r)) [
  | inl e ↦
      rw e (has_tick-select p r.schedule_name r.scheduled_for t u.0, UniqueTicks-select p t u.1)
  | inr e ↦ rw e (UniqueTicks-select p t u.1)
]

Move-UniqueTicks :
    (clock : ℕ → ℕ) (l m : Log) → UniqueTicks l.ticks → Move clock l m → UniqueTicks m.ticks
Move-UniqueTicks clock l m u (runs tasks) = u
Move-UniqueTicks clock l m u (deletes gone) = UniqueTicks-set_null gone l.ticks u
Move-UniqueTicks clock l m u (prunes is_old) =
    UniqueTicks-select (λ r. not (is_old r.schedule_name r.scheduled_for)) l.ticks u
Move-UniqueTicks clock l m u (dispatches p) = elim (ticks_cases clock p l) [
  | inl e ↦ rw e u
  | inr (r, e, h) ↦ rw e (UniqueTicks-append l.ticks r u h)
]

In-map-ticks :
    (f : OxScheduleTick → OxScheduleTick) (t : Ticks) {r : OxScheduleTick}
    → In r t
    → In (f r) (map f t)
In-map-ticks f [] i = elim i [ ]
In-map-ticks f (x ∷ t) here = here
In-map-ticks f (x ∷ t) (there i) = there (In-map-ticks f t i)

Move-In :
    (clock : ℕ → ℕ) (key at : ℕ) (task : Option ℕ) (l m : Log) (k : Move clock l m)
    → In (tick_row key at task) l.ticks
    → spares key at k ≡ true
    → In (tick_row key at (cleared_by k task)) m.ticks
Move-In clock key at task l m (runs tasks) i s = i
Move-In clock key at task l m (deletes gone) i s = In-map-ticks (set_null gone) l.ticks i
Move-In clock key at task l m (prunes is_old) i s = select-In _ i s
Move-In clock key at task l m (dispatches p) i s = elim (ticks_cases clock p l) [
  | inl e ↦ rw e i
  | inr (r, e, h) ↦ rw e (In-append l.ticks (r ∷ []) i)
]

-- Whatever the workers dispatch and in whatever order: no two ticks of the log share a schedule and an
-- instant.
pub Moves-UniqueTicks :
    {clock : ℕ → ℕ} {l m : Log} → UniqueTicks l.ticks → Moves clock l m → UniqueTicks m.ticks
Moves-UniqueTicks u start = u
Moves-UniqueTicks {clock} u (on {m} {n} r k) = Move-UniqueTicks clock m n (Moves-UniqueTicks u r) k

Moves-In :
    {clock : ℕ → ℕ} {l m : Log} (key at : ℕ) (task : Option ℕ) (r : Moves clock l m)
    → In (tick_row key at task) l.ticks
    → Spares key at r
    → In (tick_row key at (task_left r task)) m.ticks
Moves-In key at task start i s = i
Moves-In {clock} key at task (on {m} {n} r k) i s =
    Move-In clock key at (task_left r task) m n k (Moves-In key at task r i s.0) s.1

-- A tick that is in the log is not written again.
recorded-IsIdle :
    (clock : ℕ → ℕ) (p : Pass) (c : Schedule) (task : Option ℕ) (l : Log)
    → p.current ≡ some c
    → In (tick_of p c task) l.ticks
    → IsIdle l (dispatch clock p l)
unfolding has_tick
recorded-IsIdle clock p c task l e i = elim (dispatch_cases clock p l) [
  | inl k ↦ k
  | inr (d, q, w, s, h, z) ↦
      let same : d ≡ c = cc in
      let there_ : has_tick c.key p.scheduled_for l.ticks ≡ true =
        any-In (is_tick c.key p.scheduled_for) i
          (ground (arith, ==_refl c.key, ==_refl p.scheduled_for)) in
      absurd (let x = rw same at h in cc)
]

-- What a dispatch that fired has written, and the definition it went by.
pub fired_cases :
    (clock : ℕ → ℕ) (p : Pass) (c : Schedule) (id : ℕ) (l : Log)
    → p.current ≡ some c
    → (dispatch clock p l).1 ≡ fired id
    → ((dispatch clock p l).0.ticks ≡ l.ticks ++ tick_of p c (some id) ∷ [])
      × (still_due clock c p.scheduled_for p.local_now p.admitted_at ≡ true)
fired_cases clock p c id l e h = elim (dispatch_cases clock p l) [
  | inl i ↦ absurd (let x = rw h at i.1 in cc)
  | inr (d, q, w, s, k, inl a) ↦ absurd (let x = ap (λ (r : Log × Dispatched). r.1) a.0 in cc)
  | inr (d, q, w, s, k, inr f) ↦
      let same : d ≡ c = cc in
      let number : p.id ≡ id = let x = ap (λ (r : Log × Dispatched). r.1) f.0 in cc in
      let ticks = ap (λ (r : Log × Dispatched). r.0.ticks) f.0 in
      (rw (← same, ← number) ticks, rw (← same) s)
]

-- If a tick fires, then whatever is dispatched, run and deleted after it, as long as no prune takes the
-- tick: a later pass of any worker for the same schedule and instant writes nothing and enqueues nothing,
-- and the tick stays and names the task that it enqueued, or no task once a DELETE has taken that one.
pub fires_once :
    (clock : ℕ → ℕ) (p q : Pass) (c d : Schedule) (id : ℕ) (l m : Log)
    → p.current ≡ some c
    → (dispatch clock p l).1 ≡ fired id
    → (r : Moves clock (dispatch clock p l).0 m) → Spares c.key p.scheduled_for r
    → q.current ≡ some d
    → d.key ≡ c.key
    → q.scheduled_for ≡ p.scheduled_for
    → In (tick_of p c (task_left r (some id))) m.ticks × IsIdle m (dispatch clock q m)
fires_once clock p q c d id l m e h r s f same_key same_time =
    let written = fired_cases clock p c id l e h in
    let first : In (tick_of p c (some id)) (dispatch clock p l).0.ticks =
      rw written.0 (In-last l.ticks (tick_of p c (some id))) in
    let kept = Moves-In c.key p.scheduled_for (some id) r first s in
    let task = task_left r (some id) in
    let again : tick_of p c task ≡ tick_of q d task = rw (same_key, same_time) refl in
    (kept, recorded-IsIdle clock q d task m f (rw again at kept))
