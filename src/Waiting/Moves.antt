-- ===== src/Waiting/Moves.antt =====
-- Where the rows that release_many and cancel_many move come from.
use django_ox.Prelude.{
  ℕ, suc, ◌≡◌, refl, true, false, ◌==◌, ◌⊎◌, inl, inr, Option, some, Option-cases, Bool-cases, List,
  [], ◌∷◌, String, any, length, In, here, there, All, All-In, All-append, All-sort,
}
use django_ox.Store.{OxTask, Status, Table, statuses_in, update, waiting}
use django_ox.Store.Update.{In-update}
use django_ox.Actions.{ResultId, pk_of, update_chunk_size, discarded_row}
use django_ox.Actions.Ids.{chunks}
use django_ox.Waiting.{move_pinned_chunks, cancellable, cancel_many, release_many, released_row}
use django_ox.Waiting.Pinned.{seen_from, set_default, pinned, pinned_rows}
use django_ox.Waiting.Pinned.Exact.{pinned_rows-In}
use django_ox.Waiting.Chunks.{within-In}

-- What a row of the selection says: its id parses to the key, and it stands with the epoch.
abbrev pub Selected : (String → Option ℕ) → List (ResultId × ℕ) → ℕ → ℕ → Type 0
Selected parse rows pk epoch = (i : ResultId) × In (i, epoch) rows × (pk_of parse i ≡ some pk)

module _ (P : ℕ × ℕ → Type 0) where
  pub set_default-All :
      (pk epoch : ℕ) (seen : List (ℕ × ℕ))
      → All P seen
      → P (pk, epoch)
      → All P (set_default pk epoch seen)
  set_default-All pk epoch seen a p = elim (Bool-cases (any (λ q. q.0 == pk) seen)) [
    | inl e ↦ rw e a
    | inr e ↦ rw e (All-append P seen (pk, epoch) a p)
  ]

  seen_from-All :
      (parse : String → Option ℕ) (seen : List (ℕ × ℕ)) (rows : List (ResultId × ℕ))
      → All P seen
      → ((i : ResultId) (epoch pk : ℕ)
          → In (i, epoch) rows
          → pk_of parse i ≡ some pk
          → P (pk, epoch))
      → All P (seen_from parse seen rows)
  unfolding seen_from
  seen_from-All parse seen [] a f = a
  seen_from-All parse seen ((i, epoch) ∷ rest) a f =
      let deeper : (j : ResultId) (e pk : ℕ)
          → In (j, e) rest
          → pk_of parse j ≡ some pk
          → P (pk, e) =
        λ j e pk m q. f j e pk (there m) q in
      elim (Option-cases (pk_of parse i)) [
        | inl e ↦ rw e (seen_from-All parse seen rest a deeper)
        | inr (pk, e) ↦ rw e (
            seen_from-All parse (set_default pk epoch seen) rest
              (set_default-All pk epoch seen a (f i epoch pk here e)) deeper)
      ]

pinned-In :
    (parse : String → Option ℕ) (key : ℕ → ℕ) (rows : List (ResultId × ℕ)) {p : ℕ × ℕ}
    → In p (pinned parse key rows)
    → Selected parse rows p.0 p.1
unfolding pinned
pinned-In parse key rows {p} m =
    let P = λ (q : ℕ × ℕ). Selected parse rows q.0 q.1 in
    let all = seen_from-All P parse [] rows tt (λ i epoch pk k e. (i, k, e)) in
    All-In P m (All-sort _ P (seen_from parse [] rows) all)

-- A row that the chunks leave behind was there, or it is what the move made of a selected row in one
-- of the statuses.
moved-In :
    (statuses : List Status) (set_ : OxTask → OxTask) (k : ℕ) (cs : List (List (ℕ × ℕ)))
    → (t : Table) {r : OxTask} → ((x : OxTask) → statuses_in statuses (set_ x).status ≡ false)
    → In r (move_pinned_chunks statuses set_ (λ k t. t) k cs t).0
    → In r t
      ⊎ ((x : OxTask) × In x t
          × (r ≡ set_ x)
          × (statuses_in statuses x.status ≡ true)
          × ((c : List (ℕ × ℕ)) × In c cs × In (x.id, x.lease_epoch) c))
unfolding move_pinned_chunks
moved-In statuses set_ k [] t out m = inl m
moved-In statuses set_ k (c ∷ cs) t out m =
    let w = pinned_rows c statuses in
    let origin = λ (y : OxTask) (n : In y (update w set_ t)). In-update w set_ t n in
    elim (moved-In statuses set_ (suc k) cs (update w set_ t) out m) [
      | inl n ↦
          let (x, i, e) = origin _ n in
          elim (Bool-cases (w x)) [
            | inr q ↦ let same = rw q at e in inl (rw same i)
            | inl q ↦
                let (l, s) = pinned_rows-In c statuses x q in inr (x, i, rw q at e, s, (c, here, l))
          ]
      | inr (y, n, e, s, (d, j, l)) ↦
          let (x, i, q) = origin y n in
          elim (Bool-cases (w x)) [
            | inr h ↦ let same : y ≡ x = rw h at q in inr (y, rw same i, e, s, (d, there j, l))
            | inl h ↦ let same : y ≡ set_ x = rw h at q in absurd (let no = out x in cc)
          ]
    ]

module _ (parse : String → Option ℕ) (key : ℕ → ℕ) (rows : List (ResultId × ℕ)) where
  moved_rows :
      (statuses : List Status) (set_ : OxTask → OxTask) (t : Table) {r : OxTask}
      → ((x : OxTask) → statuses_in statuses (set_ x).status ≡ false)
      → In r
          (move_pinned_chunks statuses set_
            (λ k t. t)
            0
            (chunks update_chunk_size (pinned parse key rows))
            t).0
      → In r t
        ⊎ ((x : OxTask) × In x t
            × (r ≡ set_ x)
            × (statuses_in statuses x.status ≡ true)
            × Selected parse rows x.id x.lease_epoch)
  unfolding chunks
  moved_rows statuses set_ t out m =
      let pairs = pinned parse key rows in
      elim (moved-In statuses set_ 0 (chunks update_chunk_size pairs) t out m) [
        | inl n ↦ inl n
        | inr (x, i, e, s, (c, j, l)) ↦ inr (
          x,
          i,
          e,
          s,
          pinned-In parse key rows (within-In (length pairs) update_chunk_size pairs j l),
        )
      ]

  -- A row after cancel_many was there, or it is a selected READY or WAITING row at the epoch given
  -- with it, which is DISCARDED now.
  pub cancelled_rows :
      (now : ℕ) (t : Table) {r : OxTask}
      → In r (cancel_many parse key now (λ k t. t) rows t).0
      → In r t
        ⊎ ((x : OxTask) × In x t
            × (r ≡ discarded_row now x)
            × (statuses_in cancellable x.status ≡ true)
            × Selected parse rows x.id x.lease_epoch)
  unfolding cancel_many discarded_row
  cancelled_rows now t m = moved_rows cancellable (discarded_row now) t (λ x. refl) m

  -- A row after release_many was there, or it is a selected WAITING row at the epoch given with it,
  -- which is READY now.
  pub released_rows :
      (now : ℕ) (t : Table) {r : OxTask}
      → In r (release_many parse key now (λ k t. t) rows t).0
      → In r t
        ⊎ ((x : OxTask) × In x t
            × (r ≡ released_row now x)
            × (statuses_in (waiting ∷ []) x.status ≡ true)
            × Selected parse rows x.id x.lease_epoch)
  unfolding release_many released_row
  released_rows now t m = moved_rows (waiting ∷ []) (released_row now) t (λ x. refl) m
