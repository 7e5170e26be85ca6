-- ===== src/Fleet/Operators.antt =====
-- The operators' statements and those of the rows that wait, as steps of rows.
use django_ox.Prelude.{
  ℕ, ◌≡◌, refl, inl, inr, Bool, true, ◌&&◌, Option, List, [], ◌∷◌, String, In, Each, Each-refl,
  Bool-cases, Option-cases, arith,
}
use django_ox.Store.{OxTask, Table, update, waiting, discarded}
use django_ox.Store.Update.{update-Each}
use django_ox.Actions.{
  ResultId, uuid, other, pk_of, can_retry, can_discard, retry_write, discard_write, discarded_row,
  expire_lease, at_epoch, is_discardable, is_retryable, retried_self, in_chunk,
}
use django_ox.Waiting.{is_waiting_at, released_row, release, revived_row, cancellable}
use django_ox.Waiting.Pinned.{pinned_rows}
use django_ox.Life.{Write}
use django_ox.Life
use django_ox.Fleet.{RowStep, IsRead}

-- The compare-and-set writes of retry and discard for a row as it was read, expire_lease, the
-- release of a waiting row, and the UPDATE that the _many forms make for one chunk.
pub data Operation : Type 0 where
  retries : OxTask → Operation
  discards : ℕ → OxTask → Operation
  expires : ℕ → ResultId → Operation
  releases : ℕ → ResultId → ℕ → Operation
  retries_chunk : List ℕ → Operation
  discards_chunk : ℕ → List ℕ → Operation
  releases_chunk cancels_chunk : ℕ → List (ℕ × ℕ) → Operation
  revives_chunk : List (ℕ × ℕ) → Operation

abbrev pub operate : (String → Option ℕ) → Operation → Table → Table
operate parse (retries s) t = (retry_write s.id s t).0
operate parse (discards now s) t = (discard_write now s.id s t).0
operate parse (expires now i) t = (expire_lease parse now i t).0
operate parse (releases now i e) t = (release parse now i e t).0
operate parse (retries_chunk chunk) t = update (in_chunk chunk is_retryable) retried_self t
operate parse (discards_chunk now chunk) t =
    update (in_chunk chunk is_discardable) (discarded_row now) t
operate parse (releases_chunk now chunk) t =
    update (pinned_rows chunk (waiting ∷ [])) (released_row now) t
operate parse (cancels_chunk now chunk) t =
    update (pinned_rows chunk cancellable) (discarded_row now) t
operate parse (revives_chunk chunk) t = update (pinned_rows chunk (discarded ∷ [])) revived_row t

-- Only a retry computes with what it read.
abbrev pub IsDueOperation : (ℕ → List OxTask) → Table → Operation → Type 0
IsDueOperation past t (retries s) = IsRead past t s
IsDueOperation past t _ = Unit {0}

step_if :
    (past : ℕ → List OxTask) (v : OxTask → Bool) (set_ : OxTask → OxTask) (t : Table)
    → ((r : OxTask) → In r t → v r ≡ true → Write r (past r.id) (set_ r))
    → Each (RowStep past) t (update v set_ t)
step_if past v set_ t h =
    update-Each v set_ t
      λ r m. elim (Bool-cases (v r)) [ inl e ↦ rw e (inr (h r m e)) | inr e ↦ rw e (inl refl) ]

discard_parts :
    (pk e : ℕ) (r : OxTask) → (can_discard pk r && at_epoch e r) ≡ true → is_discardable r ≡ true
unfolding can_discard
discard_parts pk e r h = ground arith

retry_id : (pk e : ℕ) (r : OxTask) → (can_retry pk r && at_epoch e r) ≡ true → r.id ≡ pk
unfolding can_retry
retry_id pk e r h = ground arith

waiting_parts :
    (pk e : ℕ) (r : OxTask)
    → is_waiting_at pk e r ≡ true
    → is_waiting_at r.id r.lease_epoch r ≡ true
unfolding is_waiting_at
waiting_parts pk e r h = ground arith

pinned_waiting :
    (chunk : List (ℕ × ℕ)) (r : OxTask)
    → pinned_rows chunk (waiting ∷ []) r ≡ true
    → is_waiting_at r.id r.lease_epoch r ≡ true
unfolding pinned_rows is_waiting_at
pinned_waiting chunk r h = ground arith

pinned_cancellable :
    (chunk : List (ℕ × ℕ)) (r : OxTask)
    → pinned_rows chunk cancellable r ≡ true
    → is_discardable r ≡ true
unfolding pinned_rows
pinned_cancellable chunk r h = ground arith

pinned_discarded :
    (chunk : List (ℕ × ℕ)) (r : OxTask)
    → pinned_rows chunk (discarded ∷ []) r ≡ true
    → r.status ≡ discarded
unfolding pinned_rows
pinned_discarded chunk r h = ground arith

chunk_part :
    (chunk : List ℕ) (p : OxTask → Bool) (r : OxTask) → in_chunk chunk p r ≡ true → p r ≡ true
chunk_part chunk p r h = ground arith

expire-steps :
    (past : ℕ → List OxTask) (parse : String → Option ℕ) (now : ℕ) (i : ResultId) (t : Table)
    → Each (RowStep past) t (expire_lease parse now i t).0
unfolding expire_lease pk_of
expire-steps past parse now (uuid n) t =
    step_if past _ _ t λ r m h. Life.expiry now (ground arith) (ground arith)
expire-steps past parse now (other s) t = elim (Option-cases (parse s)) [
  | inl e ↦ rw (e, expire_lease) (Each-refl (λ r. inl refl) t)
  | inr (pk, e) ↦
      rw (e, expire_lease)
        (step_if past _ _ t λ r m h. Life.expiry now (ground arith) (ground arith))
]

release-steps :
    (past : ℕ → List OxTask) (parse : String → Option ℕ) (now : ℕ) (i : ResultId) (epoch : ℕ)
    (t : Table)
    → Each (RowStep past) t (release parse now i epoch t).0
unfolding release pk_of
release-steps past parse now (uuid n) epoch t =
    step_if past _ _ t λ r m h. Life.release now (waiting_parts n epoch r h)
release-steps past parse now (other s) epoch t = elim (Option-cases (parse s)) [
  | inl e ↦ rw (e, release) (Each-refl (λ r. inl refl) t)
  | inr (pk, e) ↦
      rw (e, release) (step_if past _ _ t λ r m h. Life.release now (waiting_parts pk epoch r h))
]

-- A retry, a discard, an expiry, a release, or one chunk of a _many form leaves each row as it was or
-- one step of its life further; a retry for a row that some session read.
pub operate-steps :
    (past : ℕ → List OxTask) (parse : String → Option ℕ) (st : Operation) (t : Table)
    → IsDueOperation past t st
    → Each (RowStep past) t (operate parse st t)
unfolding retry_write discard_write
operate-steps past parse (retries s) t d =
    step_if past _ _ t λ r m e. Life.retry s (d r m (retry_id s.id s.lease_epoch r e)) e
operate-steps past parse (discards now s) t d =
    step_if past _ _ t λ r m e. Life.discard now (discard_parts s.id s.lease_epoch r e)
operate-steps past parse (expires now i) t d = expire-steps past parse now i t
operate-steps past parse (releases now i epoch) t d = release-steps past parse now i epoch t
operate-steps past parse (retries_chunk chunk) t d =
    step_if past _ _ t λ r m h. Life.retry_in_place (chunk_part chunk is_retryable r h)
operate-steps past parse (discards_chunk now chunk) t d =
    step_if past _ _ t λ r m h. Life.discard now (chunk_part chunk is_discardable r h)
operate-steps past parse (releases_chunk now chunk) t d =
    step_if past _ _ t λ r m h. Life.release now (pinned_waiting chunk r h)
operate-steps past parse (cancels_chunk now chunk) t d =
    step_if past _ _ t λ r m h. Life.discard now (pinned_cancellable chunk r h)
operate-steps past parse (revives_chunk chunk) t d =
    step_if past _ _ t λ r m h. Life.revival (pinned_discarded chunk r h)
