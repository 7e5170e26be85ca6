-- ===== src/Oxpull/Gate.antt =====
-- The promise behind both kinds of limit, with neither the database nor the tasks: a count that
-- workers read before they admit, and that they admit by only once for each reading.
use django_ox.Prelude.{
  ℕ, zero, suc, ◌+◌, ◌≤◌, ◌<◌, ◌≡◌, refl, Bool, true, false, List, [], ◌∷◌, length, set, length-set,
  set_self, get_elem?, some, ◌∙◌, ltb, arith, ap, Bool-cases, inl, inr,
}

-- The count, and for each worker whether its last reading lets it admit once.
pub record Gate : Type 0 where
  pub used : ℕ
  pub armed : List Bool

abbrev pub one_if : Bool → ℕ
one_if true = 1
one_if false = 0

abbrev pub sum_armed : List Bool → ℕ
sum_armed [] = 0
sum_armed (b ∷ bs) = one_if b + sum_armed bs

-- The flag of worker `i`; false past the last worker.
abbrev pub flag : List Bool → ℕ → Bool
flag [] i = false
flag (b ∷ bs) zero = b
flag (b ∷ bs) (suc i) = flag bs i

-- One step: a worker reads the count against the limit, admits once on its reading, or drops its
-- reading; the count falls, or starts again at zero.
pub data Step (limit : ℕ) (g : Gate) : Gate → Type 0 where
  stays : Step limit g g
  reads : (i : ℕ) → Step limit g (record g { armed = set g.armed i (ltb g.used limit) })
  admits :
      (i : ℕ)
      → flag g.armed i ≡ true
      → Step limit g (record { used = g.used + 1; armed = set g.armed i false })
  disarms : (i : ℕ) → Step limit g (record g { armed = set g.armed i false })
  falls : (used : ℕ) → used ≤ g.used → Step limit g (record g { used = used })

pub data Run (limit : ℕ) : Gate → Gate → Type 0 where
  done : {g : Gate} → Run limit g g
  more : {g h k : Gate} → Run limit g h → Step limit h k → Run limit g k

-- The readings that are out never let the count past the limit by more than the workers but one;
-- where nothing may be admitted, no reading is out.
pub record IsWithin (limit : ℕ) (workers : ℕ) (g : Gate) : Type 0 where
  pub every_worker : length g.armed ≡ workers
  pub bounded : 1 ≤ limit → g.used + sum_armed g.armed + 1 ≤ limit + workers
  pub closed : limit ≡ 0 → g.used + sum_armed g.armed ≡ 0

sum-le-length : (bs : List Bool) → sum_armed bs ≤ length bs
sum-le-length [] = omega arith
sum-le-length (true ∷ bs) = omega (arith, sum-le-length bs)
sum-le-length (false ∷ bs) = omega (arith, sum-le-length bs)

pub set-false :
    (bs : List Bool) (i : ℕ) → sum_armed (set bs i false) + one_if (flag bs i) ≡ sum_armed bs
set-false [] i = omega arith
set-false (b ∷ bs) zero = omega arith
set-false (b ∷ bs) (suc i) = omega (arith, set-false bs i)

Step-IsWithin :
    {limit workers : ℕ} {g h : Gate}
    → Step limit g h
    → IsWithin limit workers g
    → IsWithin limit workers h
Step-IsWithin stays w = w
Step-IsWithin {limit} {workers} {g} (reads i) w = elim (Bool-cases (ltb g.used limit)) [
  | inl e ↦ rw e (ground (arith, length-set g.armed i true, sum-le-length (set g.armed i true)))
  | inr e ↦ rw e (ground (arith, length-set g.armed i false, set-false g.armed i))
]
Step-IsWithin {limit} {workers} {g} (admits i e) w =
    ground (arith, length-set g.armed i false, set-false g.armed i)
Step-IsWithin {g} (disarms i) w = ground (arith, length-set g.armed i false, set-false g.armed i)
Step-IsWithin {g} (falls u le) w = ground arith

abbrev pub gate : ℕ → List Bool → Gate
gate used armed = record { used = used; armed = armed }

module _ (limit : ℕ) (used : ℕ) (bs : List Bool) (i : ℕ) where
  pub lowers :
      (b b' : Bool)
      → get_elem? bs i ≡ some b
      → (b' ≡ true → b ≡ true)
      → Run limit (gate used bs) (gate used (set bs i b'))
  lowers b false h k = more done (disarms i)
  lowers b true h k = rw (set_self bs i true (h ∙ ap some (k refl))) done

  pub rolls :
      (b' : Bool) → (b' ≡ true → 0 < limit) → Run limit (gate used bs) (gate 0 (set bs i b'))
  rolls false k = more (more done (falls 0 (omega arith))) (disarms i)
  rolls true k =
      let fresh : ltb 0 limit ≡ true = ground (arith, k refl) in
      rw (← fresh) (more (more done (falls 0 (omega arith))) (reads i))

pub flag-of : (bs : List Bool) (i : ℕ) → get_elem? bs i ≡ some true → flag bs i ≡ true
flag-of [] i h = cc
flag-of (b ∷ bs) zero h = cc
flag-of (b ∷ bs) (suc i) h = flag-of bs i h

pub Run-trans : {limit : ℕ} {g h k : Gate} → Run limit g h → Run limit h k → Run limit g k
Run-trans r done = r
Run-trans r (more q s) = more (Run-trans r q) s

-- However the workers interleave, a count that starts with no reading out and within the limit never
-- exceeds the limit by more than the number of workers less one; a limit of zero admits nothing.
pub Run-IsWithin :
    {limit workers : ℕ} {g h : Gate}
    → IsWithin limit workers g
    → Run limit g h
    → IsWithin limit workers h
Run-IsWithin w done = w
Run-IsWithin w (more r s) = Step-IsWithin s (Run-IsWithin w r)
