-- ===== src/Oxpull/Concurrency/Slots.antt =====
-- The running rows that a concurrency limit covers, with any number of workers on the table.
use django_ox.Prelude.{
  ℕ, ◌+◌, ◌-◌, ◌≤◌, ◌≡◌, refl, Bool, true, false, ◌&&◌, not, some, List, [], ◌∷◌, ltb, set,
  get_elem?, get_elem?-map, length, map, map-set, length-map, All, arith, ap, ◌∙◌, Bool-cases, inl,
  inr,
}
use django_ox.Store.{OxTask, Table, update}
use django_ox.Worker.{Worker, Clock}
use django_ox.Worker.Claim.{claim_fields}
use django_ox.Oxpull.Gate.{
  Gate, Run, done, more, reads, admits, falls, sum_armed, Run-IsWithin, gate, lowers, flag-of,
  Run-trans, IsWithin, disarms, set-false,
}
use django_ox.Oxpull.Concurrency.Quiet.{Quiet-count, matched-update_le, matched-update_quiet}
use django_ox.Oxpull.Concurrency.{
  ConcurrencyLimit, covers, is_counted, running_count, ConcurrencyView, finish_read,
}
use django_ox.Oxpull.Concurrency.Turns.{
  Phase, resting, counting, ready_to_claim, Act, begin, finish, fail, skip, claim, claim_and_raise,
  claim_uncovered, find_nothing, mark, Member, Fleet, Turn, turn, others, Reach, start, on,
  unrecorded_by, unrecorded_in, unrecorded,
}

abbrev pub is_armed : ConcurrencyView → Phase → Bool
is_armed view resting = not view.stale && not view.blocked
is_armed view counting = false
is_armed view ready_to_claim = not view.blocked

abbrev pub arms : Member → Bool
arms m = is_armed m.view m.phase

-- The count without the claims that were not recorded.
abbrev pub gate_of : ConcurrencyLimit → (lost : ℕ) → Fleet → Gate
gate_of limit lost s = gate (running_count limit s.table - lost) (map arms s.members)

finish-armed :
    (limit : ConcurrencyLimit) (t : Table) (view : ConcurrencyView)
    → not (finish_read limit t view).blocked ≡ ltb (running_count limit t) limit.max
unfolding finish_read
finish-armed limit t view = ground arith

then_lowers :
    (limit used used' : ℕ) (bs : List Bool) (i : ℕ) (b b' : Bool)
    → used' ≤ used
    → get_elem? bs i ≡ some b
    → (b' ≡ true → b ≡ true)
    → Run limit (gate used bs) (gate used' (set bs i b'))
then_lowers limit used used' bs i b b' le h k =
    Run-trans (more done (falls used' le)) (lowers limit used' bs i b b' h k)

claim-count :
    (limit : ConcurrencyLimit) (t : Table) (w : Worker) (c : Clock) (s : OxTask)
    (where_ : OxTask → Bool)
    → ((r : OxTask) → where_ r ≡ true → covers limit r ≡ false)
    → running_count limit (update where_ (claim_fields w c s) t) ≤ running_count limit t
unfolding running_count claim_fields covers
claim-count limit t w c s where_ h =
    matched-update_quiet (is_counted limit) where_ (claim_fields w c s) t
      (λ r e k. ground (arith, h r))

-- A count sets the flag by the rows that are running, and so at most by the fewer that are told apart.
finish-Run :
    (limit : ConcurrencyLimit) (used lost : ℕ) (bs : List Bool) (i : ℕ) (b : Bool)
    → get_elem? bs i ≡ some b
    → Run limit.max (gate (used - lost) bs) (gate (used - lost) (set bs i (ltb used limit.max)))
finish-Run limit used lost bs i b h = elim (Bool-cases (ltb used limit.max)) [
  | inl e ↦
      let low : ltb (used - lost) limit.max ≡ true = ground arith in
      rw (e, ← low) (more done (reads i))
  | inr e ↦ rw e (more done (disarms i))
]

act-Run :
    (limit : ConcurrencyLimit) (lost : ℕ) (t : Table) (view : ConcurrencyView) (phase : Phase)
    (t' : Table) (view' : ConcurrencyView) (phase' : Phase) (bs : List Bool) (i : ℕ)
    → get_elem? bs i ≡ some (is_armed view phase)
    → (a : Act limit t view phase t' view' phase')
    → Run limit.max
        (gate (running_count limit t - lost) bs)
        (gate (running_count limit t' - unrecorded_by a lost) (set bs i (is_armed view' phase')))
unfolding running_count
act-Run limit lost t view phase t' view' phase' bs i h begin =
    lowers limit.max (running_count limit t - lost) bs i (is_armed view resting) false h (λ k. cc)
act-Run limit lost t view phase t' view' phase' bs i h finish =
    rw (finish-armed limit t view) (finish-Run limit (running_count limit t) lost bs i false h)
act-Run limit lost t view phase t' view' phase' bs i h fail =
    lowers limit.max (running_count limit t - lost) bs i false false h (λ k. k)
act-Run limit lost t view phase t' view' phase' bs i h (skip e) =
    lowers limit.max (running_count limit t - lost) bs i (is_armed view resting) (not view.blocked)
      h (λ k. ground arith)
act-Run limit lost t view phase t' view' phase' bs i h (claim w c s where_ e one) =
    let le = matched-update_le (is_counted limit) where_ (claim_fields w c s) t in
    more (more done (admits i (flag-of bs i (h ∙ ap some (ground arith)))))
      (falls (running_count limit (update where_ (claim_fields w c s) t) - lost) (ground arith))
act-Run limit lost t view phase t' view' phase' bs i h (claim_and_raise w c s where_ e one) =
    let le = matched-update_le (is_counted limit) where_ (claim_fields w c s) t in
    then_lowers limit.max (running_count limit t - lost)
      (running_count limit (update where_ (claim_fields w c s) t) - (lost + 1)) bs i
      (not view.blocked) (is_armed view resting) (ground arith) h (λ k. ground arith)
act-Run limit lost t view phase t' view' phase' bs i h (claim_uncovered w c s where_ e) =
    let le = claim-count limit t w c s where_ e in
    then_lowers limit.max (running_count limit t - lost)
      (running_count limit (update where_ (claim_fields w c s) t) - lost) bs i (not view.blocked)
      (is_armed view resting) (ground arith) h (λ k. ground arith)
act-Run limit lost t view phase t' view' phase' bs i h find_nothing =
    lowers limit.max (running_count limit t - lost) bs i (not view.blocked) (is_armed view resting)
      h (λ k. ground arith)
act-Run limit lost t view phase t' view' phase' bs i h (mark resting) =
    lowers limit.max (running_count limit t - lost) bs i (is_armed view resting) false h (λ k. cc)
act-Run limit lost t view phase t' view' phase' bs i h (mark counting) =
    lowers limit.max (running_count limit t - lost) bs i false false h (λ k. k)
act-Run limit lost t view phase t' view' phase' bs i h (mark ready_to_claim) =
    lowers limit.max (running_count limit t - lost) bs i (not view.blocked) (not view.blocked) h
      (λ k. k)

Turn-Run :
    (limit : ConcurrencyLimit) (lost : ℕ) (s t : Fleet) (k : Turn limit s t)
    → Run limit.max (gate_of limit lost s) (gate_of limit (unrecorded_in k lost) t)
Turn-Run limit lost s t (turn i m {t'} {view'} {phase'} e a) =
    rw (map-set arms s.members i (record { view = view'; phase = phase' })) (
      act-Run limit lost s.table m.view m.phase t' view' phase' (map arms s.members) i
        (get_elem?-map arms s.members i m e) a)
Turn-Run limit lost s t (others past {t'} q) =
    let le = Quiet-count past limit q in
    more done (falls (running_count limit t' - lost) (omega arith))

Reach-Run :
    (limit : ConcurrencyLimit) {s t : Fleet} (r : Reach limit s t)
    → Run limit.max (gate_of limit 0 s) (gate_of limit (unrecorded r) t)
Reach-Run limit start = done
Reach-Run limit (on {t} {u} r a) =
    Run-trans (Reach-Run limit r) (Turn-Run limit (unrecorded r) t u a)

-- Only a worker whose reading lets it admit claims and raises.
unrecorded-armed :
    (limit : ConcurrencyLimit) (lost : ℕ) (t : Table) (view : ConcurrencyView) (phase : Phase)
    (t' : Table) (view' : ConcurrencyView) (phase' : Phase)
    (a : Act limit t view phase t' view' phase')
    → is_armed view phase ≡ false
    → unrecorded_by a lost ≡ lost
unrecorded-armed limit lost t view phase t' view' phase' begin h = refl
unrecorded-armed limit lost t view phase t' view' phase' finish h = refl
unrecorded-armed limit lost t view phase t' view' phase' fail h = refl
unrecorded-armed limit lost t view phase t' view' phase' (skip e) h = refl
unrecorded-armed limit lost t view phase t' view' phase' (claim w c s where_ e one) h = refl
unrecorded-armed limit lost t view phase t' view' phase' (claim_and_raise w c s where_ e one) h =
    absurd (ground arith)
unrecorded-armed limit lost t view phase t' view' phase' (claim_uncovered w c s where_ e) h = refl
unrecorded-armed limit lost t view phase t' view' phase' find_nothing h = refl
unrecorded-armed limit lost t view phase t' view' phase' (mark p) h = refl

unarmed :
    (bs : List Bool) (i : ℕ) (b : Bool) → get_elem? bs i ≡ some b → sum_armed bs ≡ 0 → b ≡ false
unarmed bs i false h z = refl
unarmed bs i true h z = absurd (let f = flag-of bs i h in let q = set-false bs i in ground arith)

closed-unrecorded :
    (limit : ConcurrencyLimit) {s t : Fleet} (workers : ℕ) (r : Reach limit s t)
    → IsWithin limit.max workers (gate_of limit 0 s)
    → limit.max ≡ 0
    → unrecorded r ≡ 0
closed-unrecorded limit workers start w z = refl
closed-unrecorded limit workers (on r (others past q)) w z = closed-unrecorded limit workers r w z
closed-unrecorded limit workers (on {t} r (turn i m {t'} {view'} {phase'} e a)) w z =
    let before = (Run-IsWithin w (Reach-Run limit r)).closed z in
    let none_out : sum_armed (map arms t.members) ≡ 0 = omega arith in
    let off =
      unarmed (map arms t.members) i (arms m) (get_elem?-map arms t.members i m e) none_out in
    let here_ =
      unrecorded-armed limit (unrecorded r) t.table m.view m.phase t' view' phase' a off in
    let rest = closed-unrecorded limit workers r w z in here_ ∙ rest

-- A worker that has only started: its view is stale.
abbrev pub IsNew : Member → Type 0
IsNew m = (m.phase ≡ resting) × (m.view.stale ≡ true)

new-unarmed : (ms : List Member) → All IsNew ms → sum_armed (map arms ms) ≡ 0
new-unarmed [] a = refl
new-unarmed (m ∷ ms) a =
    let idle : is_armed m.view m.phase ≡ is_armed m.view resting = ap (is_armed m.view) a.0.0 in
    let quiet : arms m ≡ false = ground arith in rw quiet (omega (arith, new-unarmed ms a.1))

-- For workers that start with stale views on a table where the limit is kept, however their
-- statements interleave with each other and with any other writes but claims: the running rows that
-- the limit covers are never more than the maximum, one more for each worker but one, and one more for
-- each claim that committed and raised; and under a maximum of zero there are none.
pub slots_bound :
    (limit : ConcurrencyLimit) (s t : Fleet)
    → running_count limit s.table ≤ limit.max
    → All IsNew s.members
    → 1 ≤ length s.members
    → (r : Reach limit s t)
    → (running_count limit t.table + 1 ≤ limit.max + length s.members + unrecorded r)
      × (limit.max ≡ 0 → running_count limit t.table ≡ 0)
slots_bound limit s t z a n r =
    let none_out = new-unarmed s.members a in
    let first : IsWithin limit.max (length s.members) (gate_of limit 0 s) = record {
      every_worker = length-map arms s.members;
      bounded = λ p. omega arith;
      closed = λ p. omega arith;
    } in
    let w = Run-IsWithin first (Reach-Run limit r) in
    (
      ground arith,
      λ p.
          let lost = closed-unrecorded limit (length s.members) r first p in
          let q = w.closed p in omega arith,
    )
