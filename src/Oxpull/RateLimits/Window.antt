-- ===== src/Oxpull/RateLimits/Window.antt =====
-- The admissions of one window, with any number of workers on it.
use django_ox.Prelude.{
  ℕ, suc, ◌+◌, ◌≤◌, ◌<◌, ◌≡◌, refl, ◌⊎◌, Bool, true, false, ◌&&◌, Option, none, some, List, [], ◌∷◌,
  ltb, ◌==◌, set, set_self, get_elem?, get_elem?-map, length, map, map-set, length-map, All, arith,
  ap, inl, inr, Bool-cases,
}
use django_ox.Oxpull.Gate.{
  Gate, reads, admits, falls, Run, done, more, sum_armed, Run-IsWithin, gate, lowers, rolls,
  flag-of, Run-trans,
}
use django_ox.Oxpull.RateLimits.{
  RateLimit, RateWindow, RateView, is_over, read_window, increment, counted, unrecorded, reopen,
  may_claim, max_rate_attempts,
}

-- Where a worker stands: between claims; between the SELECT and the end of _read_windows, before a
-- claim or while it counts one; or with a claim that is not counted yet. The number is of the tries
-- that _count has left.
pub data Phase : Type 0 where
  resting : Phase
  selected : (read : RateWindow) → (db_now : ℕ) → Phase
  admitted : (tries : ℕ) → Phase
  reselected : (read : RateWindow) → (db_now tries : ℕ) → Phase

-- One statement of one worker, on the window row as it stands.
pub data Act (config : RateLimit) (row : RateWindow) (view : RateView)
    : Phase → RateWindow → RateView → Phase → Type 0 where
  select : (db_now : ℕ) → Act config row view resting row view (selected row db_now)
  take_in :
      (read : RateWindow) (db_now now : ℕ)
      → Act config row view
          (selected read db_now)
          (read_window config read db_now now row view).0
          (read_window config read db_now now row view).1
          resting
  claim : may_claim view ≡ true → Act config row view resting row view (admitted max_rate_attempts)
  count :
      (tries : ℕ) (row' : RateWindow)
      → increment view.seen row ≡ some row'
      → Act config row view (admitted (suc tries)) row' (counted view) resting
  miss :
      (tries window_id db_now : ℕ)
      → view.seen ≡ some window_id
      → increment view.seen row ≡ none
      → Act config row view (admitted (suc tries)) row view (reselected row db_now tries)
  unseen :
      (tries : ℕ)
      → view.seen ≡ none
      → Act config row view (admitted (suc tries)) row (record view { stale = true }) resting
  take_in_again :
      (read : RateWindow) (db_now now tries : ℕ)
      → Act config row view
          (reselected read db_now tries)
          (read_window config read db_now now row view).0
          (read_window config read db_now now row view).1
          (admitted tries)
  lose : (tries : ℕ) → Act config row view (admitted tries) row (unrecorded view) resting
  lose_read :
      (read : RateWindow) (db_now tries : ℕ)
      → Act config row view (reselected read db_now tries) row (unrecorded view) resting
  open_again : view.closed ≡ true → Act config row view resting row (reopen view) resting

pub record Member : Type 0 where
  pub view : RateView
  pub phase : Phase

pub record Fleet : Type 0 where
  pub row : RateWindow
  pub members : List Member

pub data Turn (config : RateLimit) (s : Fleet) : Fleet → Type 0 where
  turn :
      (i : ℕ) (m : Member) {row' : RateWindow} {view' : RateView} {phase' : Phase}
      → get_elem? s.members i ≡ some m
      → Act config s.row m.view m.phase row' view' phase'
      → Turn config s (record {
        row = row';
        members = set s.members i (record { view = view'; phase = phase' });
      })

pub data Reach (config : RateLimit) (s : Fleet) : Fleet → Type 0 where
  start : Reach config s s
  on : {t u : Fleet} → Reach config s t → Turn config t u → Reach config s u

-- A worker may still add to the count without reading it again.
abbrev pub is_armed : RateLimit → RateView → Phase → Bool
is_armed config view resting = may_claim view
is_armed config view (selected read db_now) = ltb read.used config.limit
is_armed config view (admitted tries) = true
is_armed config view (reselected read db_now tries) = true

abbrev pub arms : RateLimit → Member → Bool
arms config m = is_armed config m.view m.phase

abbrev pub gate_of : RateLimit → Fleet → Gate
gate_of config s = record { used = s.row.used; armed = map (arms config) s.members }

-- The end of _read_windows leaves the count or starts a window, and unblocks only below the limit.
read_window_cases :
    (config : RateLimit) (read : RateWindow) (db_now now : ℕ) (row : RateWindow) (view : RateView)
    → let (row', view') = read_window config read db_now now row view in
      ((row'.used ≡ row.used) × (may_claim view' ≡ true → ltb read.used config.limit ≡ true))
      ⊎ ((row'.used ≡ 0) × (may_claim view' ≡ true → 0 < config.limit))
unfolding read_window
read_window_cases config read db_now now row view = elim (Bool-cases (is_over config read db_now)) [
  | inr e ↦ rw e (inl (refl, λ h. ground arith))
  | inl e ↦ elim (Bool-cases (row.window_id == read.window_id && is_over config row now)) [
    | inl q ↦ rw (e, q) (inr (refl, λ h. ground arith))
    | inr q ↦ rw (e, q) (inl (refl, λ h. ground arith))
  ]
]

increment-used :
    (seen : Option ℕ) (row row' : RateWindow)
    → increment seen row ≡ some row'
    → row'.used ≡ row.used + 1
unfolding increment
increment-used none row row' h = cc
increment-used (some n) row row' h = ground arith

-- Every statement of a worker is a run of the gate: at most one admission for each reading.
act-Run :
    (config : RateLimit) (row : RateWindow) (view : RateView) (phase : Phase) (row' : RateWindow)
    (view' : RateView) (phase' : Phase) (bs : List Bool) (i : ℕ)
    → get_elem? bs i ≡ some (is_armed config view phase)
    → Act config row view phase row' view' phase'
    → Run config.limit (gate row.used bs) (gate row'.used (set bs i (is_armed config view' phase')))
unfolding counted unrecorded reopen
act-Run config row view phase row' view' phase' bs i h (select db_now) = more done (reads i)
act-Run config row view phase row' view' phase' bs i h (take_in read db_now now) =
    elim (read_window_cases config read db_now now row view) [
      | inl (e, low) ↦ rw e (
          lowers config.limit row.used bs i (ltb read.used config.limit)
            (may_claim (read_window config read db_now now row view).1) h low)
      | inr (e, low) ↦ rw e (
          rolls config.limit row.used bs i
            (may_claim (read_window config read db_now now row view).1) low)
    ]
act-Run config row view phase row' view' phase' bs i h (claim e) =
    lowers config.limit row.used bs i (may_claim view) true h (λ k. e)
act-Run config row view phase row' view' phase' bs i h (count tries after e) =
    rw (increment-used view.seen row after e) (more done (admits i (flag-of bs i h)))
act-Run config row view phase row' view' phase' bs i h (miss tries window_id db_now e f) =
    lowers config.limit row.used bs i true true h (λ k. refl)
act-Run config row view phase row' view' phase' bs i h (unseen tries e) =
    lowers config.limit row.used bs i true false h (λ k. refl)
act-Run config row view phase row' view' phase' bs i h (take_in_again read db_now now tries) =
    elim (read_window_cases config read db_now now row view) [
      | inl (e, low) ↦ rw e (lowers config.limit row.used bs i true true h (λ k. refl))
      | inr (e, low) ↦ rw (e, set_self bs i true h) (more done (falls 0 (omega arith)))
    ]
act-Run config row view phase row' view' phase' bs i h (lose tries) =
    lowers config.limit row.used bs i true false h (λ k. refl)
act-Run config row view phase row' view' phase' bs i h (lose_read read db_now tries) =
    lowers config.limit row.used bs i true false h (λ k. refl)
act-Run config row view phase row' view' phase' bs i h (open_again e) =
    lowers config.limit row.used bs i (may_claim view) (may_claim view) h (λ k. k)

Turn-Run :
    (config : RateLimit) (s t : Fleet)
    → Turn config s t
    → Run config.limit (gate_of config s) (gate_of config t)
Turn-Run config s t (turn i m {row'} {view'} {phase'} e a) =
    rw (map-set (arms config) s.members i (record { view = view'; phase = phase' })) (
      act-Run config s.row m.view m.phase row' view' phase' (map (arms config) s.members) i
        (get_elem?-map (arms config) s.members i m e) a)

pub Reach-Run :
    (config : RateLimit) {s t : Fleet}
    → Reach config s t
    → Run config.limit (gate_of config s) (gate_of config t)
Reach-Run config start = done
Reach-Run config (on {t} {u} r a) = Run-trans (Reach-Run config r) (Turn-Run config t u a)

-- A worker that has only started: its view is stale and it holds nothing.
abbrev pub IsNew : Member → Type 0
IsNew m = (m.phase ≡ resting) × (m.view.stale ≡ true)

new-unarmed :
    (config : RateLimit) (ms : List Member) → All IsNew ms → sum_armed (map (arms config) ms) ≡ 0
new-unarmed config [] a = refl
new-unarmed config (m ∷ ms) a =
    let idle : is_armed config m.view m.phase ≡ may_claim m.view =
      ap (is_armed config m.view) a.0.0 in
    let quiet : arms config m ≡ false = ground arith in
    rw quiet (omega (arith, new-unarmed config ms a.1))

-- For workers that start with stale views on a window that has counted nothing, however their
-- statements interleave: no window counts more than the limit and one more for each worker but one,
-- and under a limit of zero nothing is counted.
pub window_bound :
    (config : RateLimit) (s t : Fleet)
    → s.row.used ≡ 0
    → All IsNew s.members
    → 1 ≤ length s.members
    → Reach config s t
    → (t.row.used + 1 ≤ config.limit + length s.members) × (config.limit ≡ 0 → t.row.used ≡ 0)
window_bound config s t z a n r =
    let none_out = new-unarmed config s.members a in
    let w =
      Run-IsWithin
        (record {
          every_worker = length-map (arms config) s.members;
          bounded = λ p. omega arith;
          closed = λ p. omega arith;
        })
        (Reach-Run config r) in
    (ground arith, ground arith)
