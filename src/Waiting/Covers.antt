-- ===== src/Waiting/Covers.antt =====
-- The rows that the chunks of release_many and cancel_many reach: all that are selected at their epoch.
use django_ox.Prelude.{
  ℕ, suc, ◌+◌, ◌≡◌, ◌≢◌, refl, ap, Bool, true, false, ◌==◌, inl, inr, Option, some, Option-cases,
  Bool-cases, List, [], ◌∷◌, String, any, any-witness, length, In, here, there, In-cons, In-append,
  In-last, All, All-In, sort-In, arith,
}
use django_ox.Store.{OxTask, Status, Table, statuses_in, update, matched}
use django_ox.Store.Update.{matched-update, matched-zero, UniqueKeys, UniqueKeys-update}
use django_ox.Actions.{ResultId, pk_of, update_chunk_size}
use django_ox.Actions.Ids.{chunks}
use django_ox.Waiting.{move_pinned_chunks}
use django_ox.Waiting.Moves.{set_default-All}
use django_ox.Waiting.Pinned.{seen_from, set_default, pinned, pinned_rows}
use django_ox.Waiting.Pinned.Exact.{pinned_rows_iff, pinned_rows-In, pinned-DistinctKeys}
use django_ox.Waiting.Chunks.{within-covers, within-DistinctKeys}

-- A key whose epoch is one and the same throughout keeps it.
module _ (pk epoch : ℕ) where
  abbrev IsAgreed : ℕ × ℕ → Type 0
  IsAgreed q = q.0 ≡ pk → q.1 ≡ epoch

  set_default-keeps :
      (k e : ℕ) (seen : List (ℕ × ℕ)) {p : ℕ × ℕ} → In p seen → In p (set_default k e seen)
  set_default-keeps k e seen m = elim (Bool-cases (any (λ q. q.0 == k) seen)) [
    | inl h ↦ rw h m
    | inr h ↦ rw h (In-append seen ((k, e) ∷ []) m)
  ]

  seen_from-keeps :
      (parse : String → Option ℕ) (seen : List (ℕ × ℕ)) (rows : List (ResultId × ℕ)) {p : ℕ × ℕ}
      → In p seen
      → In p (seen_from parse seen rows)
  unfolding seen_from
  seen_from-keeps parse seen [] m = m
  seen_from-keeps parse seen ((i, e) ∷ rest) m = elim (Option-cases (pk_of parse i)) [
    | inl q ↦ rw q (seen_from-keeps parse seen rest m)
    | inr (k, q) ↦
        rw q (seen_from-keeps parse (set_default k e seen) rest (set_default-keeps k e seen m))
  ]

  set_default-has :
      (seen : List (ℕ × ℕ)) → All IsAgreed seen → In (pk, epoch) (set_default pk epoch seen)
  set_default-has seen a = elim (Bool-cases (any (λ q. q.0 == pk) seen)) [
    | inr h ↦ rw h (In-last seen (pk, epoch))
    | inl h ↦
        let (q, m, k) = any-witness (λ (q : ℕ × ℕ). q.0 == pk) seen h in
        let same : q.0 ≡ pk = ground arith in
        let agreed : q.1 ≡ epoch = All-In IsAgreed m a same in
        let all : q ≡ (pk, epoch) = cc in rw h (rw all at m)
  ]

  seen_from-has :
      (parse : String → Option ℕ) (seen : List (ℕ × ℕ)) (rows : List (ResultId × ℕ)) (i : ResultId)
      → In (i, epoch) rows
      → pk_of parse i ≡ some pk
      → All IsAgreed seen
      → ((j : ResultId) (e : ℕ) → In (j, e) rows → pk_of parse j ≡ some pk → e ≡ epoch)
      → In (pk, epoch) (seen_from parse seen rows)
  unfolding seen_from
  seen_from-has parse seen [] i m n a f = elim m [ ]
  seen_from-has parse seen ((j, e) ∷ rest) i m n a f =
      let deeper : (l : ResultId) (d : ℕ) → In (l, d) rest → pk_of parse l ≡ some pk → d ≡ epoch =
        λ l d k q. f l d (there k) q in
      elim (In-cons m) [
        | inl q ↦
            let this : i ≡ j = ap (λ (p : ResultId × ℕ). p.0) q in
            let that : epoch ≡ e = ap (λ (p : ResultId × ℕ). p.1) q in
            let named : pk_of parse j ≡ some pk = rw this at n in
            rw (named, ← that)
              (seen_from-keeps parse (set_default pk epoch seen) rest (set_default-has seen a))
        | inr k ↦ elim (Option-cases (pk_of parse j)) [
          | inl q ↦ rw q (seen_from-has parse seen rest i k n a deeper)
          | inr (l, q) ↦
              let agreed : IsAgreed (l, e) = λ same. f j e here (rw same at q) in
              rw q (
                seen_from-has parse (set_default l e seen) rest i k n
                  (set_default-All IsAgreed l e seen a agreed) deeper)
        ]
      ]

-- Chunks that match no row leave the table, and none of them matches a row of it.
pub none_moved :
    (statuses : List Status) (set_ : OxTask → OxTask) (k : ℕ) (cs : List (List (ℕ × ℕ))) (t : Table)
    → (move_pinned_chunks statuses set_ (λ k t. t) k cs t).1 ≡ 0
    → ((move_pinned_chunks statuses set_ (λ k t. t) k cs t).0 ≡ t)
      × All (λ c. matched (pinned_rows c statuses) t ≡ 0) cs
unfolding move_pinned_chunks
none_moved statuses set_ k [] t h = (refl, tt)
none_moved statuses set_ k (c ∷ cs) t h =
    let w = pinned_rows c statuses in
    let nothing : matched w t ≡ 0 = omega arith in
    let same = matched-update w set_ t nothing in
    let rest = none_moved statuses set_ (suc k) cs t (
      let q : (move_pinned_chunks statuses set_ (λ k t. t) (suc k) cs (update w set_ t)).1 ≡ 0 =
        omega arith in
      rw same at q) in
    (rw same rest.0, (nothing, rest.1))

-- With nothing else between the chunks, a row that is selected at its epoch, in one of the statuses,
-- makes the move count a row.
pub moves_selected :
    (parse : String → Option ℕ) (key : ℕ → ℕ) (rows : List (ResultId × ℕ))
    → (statuses : List Status) (set_ : OxTask → OxTask) (t : Table) (x : OxTask) (i : ResultId)
    → In x t
    → statuses_in statuses x.status ≡ true
    → In (i, x.lease_epoch) rows
    → pk_of parse i ≡ some x.id
    → ((j : ResultId) (e : ℕ) → In (j, e) rows → pk_of parse j ≡ some x.id → e ≡ x.lease_epoch)
    → (move_pinned_chunks statuses set_
        (λ k t. t)
        0
        (chunks update_chunk_size (pinned parse key rows))
        t).1
      ≢ 0
unfolding chunks pinned
moves_selected parse key rows statuses set_ t x i m s r n agreed h =
    let pairs = pinned parse key rows in
    let listed : In (x.id, x.lease_epoch) pairs =
      sort-In _ (seen_from-has x.id x.lease_epoch parse [] rows i r n tt agreed) in
    let (c, l, j) = within-covers (length pairs) 999 pairs (omega arith) listed in
    let distinct =
      within-DistinctKeys (length pairs) update_chunk_size pairs
        (pinned-DistinctKeys parse key rows) l in
    let matches = (pinned_rows_iff c statuses x distinct).1 (j, s) in
    let none_here = (none_moved statuses set_ 0 (chunks update_chunk_size pairs) t h).1 in
    let unmatched =
      matched-zero (pinned_rows c statuses) m
        (All-In (λ c. matched (pinned_rows c statuses) t ≡ 0) l none_here) in
    cc

abbrev pub is_in : List Status → OxTask → Bool
is_in statuses r = statuses_in statuses r.status

matched-moved :
    (w p : OxTask → Bool) (set_ : OxTask → OxTask) (t : Table)
    → ((x : OxTask) → w x ≡ true → p x ≡ true)
    → ((x : OxTask) → p (set_ x) ≡ false)
    → matched p (update w set_ t) + matched w t ≡ matched p t
unfolding matched update
matched-moved w p set_ [] h out = refl
matched-moved w p set_ (r ∷ t) h out =
    let rest = matched-moved w p set_ t h out in
    elim (Bool-cases (w r)) [
      | inl e ↦ rw (e, out r, h r e) (omega arith)
      | inr e ↦ rw e (omega arith)
    ]

-- The rows in the statuses are fewer by the number that the move reports.
pub moved_count :
    (statuses : List Status) (set_ : OxTask → OxTask) (k : ℕ) (cs : List (List (ℕ × ℕ))) (t : Table)
    → ((x : OxTask) → statuses_in statuses (set_ x).status ≡ false)
    → let r = move_pinned_chunks statuses set_ (λ k t. t) k cs t in
      matched (is_in statuses) r.0 + r.1 ≡ matched (is_in statuses) t
unfolding move_pinned_chunks
moved_count statuses set_ k [] t out = omega arith
moved_count statuses set_ k (c ∷ cs) t out =
    let w = pinned_rows c statuses in
    let rest = moved_count statuses set_ (suc k) cs (update w set_ t) out in
    let here_ =
      matched-moved w (is_in statuses) set_ t (λ x h. (pinned_rows-In c statuses x h).1) out in
    omega arith

pub moved-UniqueKeys :
    (statuses : List Status) (set_ : OxTask → OxTask) (k : ℕ) (cs : List (List (ℕ × ℕ))) (t : Table)
    → ((x : OxTask) → (set_ x).id ≡ x.id)
    → UniqueKeys t
    → UniqueKeys (move_pinned_chunks statuses set_ (λ k t. t) k cs t).0
unfolding move_pinned_chunks
moved-UniqueKeys statuses set_ k [] t same u = u
moved-UniqueKeys statuses set_ k (c ∷ cs) t same u =
    moved-UniqueKeys statuses set_ (suc k) cs (update (pinned_rows c statuses) set_ t) same
      (UniqueKeys-update (pinned_rows c statuses) set_ t same u)
