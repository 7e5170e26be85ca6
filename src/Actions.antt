-- ===== src/Actions.antt =====
-- src/django_ox/actions.py: the operator's retry, discard and expire_lease, and their _many forms;
-- and src/django_ox/_contention.py, which runs the transactions of the latter again.
use django_ox.Prelude.{
  ℕ, suc, ◌+◌, ◌-◌, Bool, false, ◌&&◌, not, Option, none, some, List, [], ◌∷◌, String, ltb, ◌==◌,
  if◌then◌else◌, any, length, is_null,
}
use django_ox.Store.{
  OxTask, Status, ready, running, failed, lost, waiting, discarded, status_eq, statuses_in, Table,
  update, matched, first,
}
pub mod Ids
pub mod Contention
pub mod Race

-- A caller's id: a UUID, or anything whose text uuid.UUID may or may not read.
pub data ResultId : Type 0 where
  uuid : ℕ → ResultId
  other : String → ResultId

abbrev pub retryable_statuses : List Status
retryable_statuses = failed ∷ lost ∷ []

abbrev pub discardable_statuses : List Status
discardable_statuses = ready ∷ failed ∷ lost ∷ waiting ∷ []

-- tasks.MAX_ATTEMPTS_LIMIT, and UPDATE_CHUNK_SIZE.
abbrev pub max_attempts_limit : ℕ
max_attempts_limit = 32767

abbrev pub update_chunk_size : ℕ
update_chunk_size = 1000

abbrev pub day : ℕ
day = 86400000000

abbrev pub retry_fits : OxTask → Bool
retry_fits r = ltb r.attempts max_attempts_limit

unfoldable pub can_retry : ℕ → OxTask → Bool
can_retry pk r = r.id == pk && statuses_in retryable_statuses r.status && retry_fits r

-- The SET of a retry, whose new epoch and budget are `epoch + 1` and `attempts + 1`.
unfoldable pub retried_row : (epoch attempts : ℕ) → OxTask → OxTask
retried_row epoch attempts r = record r {
  status = ready;
  lease_epoch = epoch + 1;
  max_attempts = attempts + 1;
  run_after = none;
  finished_at = none;
  locked_by = none;
  locked_at = none;
  lease_expires_at = none;
}

unfoldable pub discarded_row : ℕ → OxTask → OxTask
discarded_row now r = record r {
  status = discarded;
  finished_at = some now;
  locked_by = none;
  locked_at = none;
  lease_expires_at = none;
}

unfoldable pub expired_row : ℕ → OxTask → OxTask
expired_row now r = record r { lease_expires_at = some (now - day); locked_at = some (now - day) }

abbrev pub at_epoch : ℕ → OxTask → Bool
at_epoch epoch r = r.lease_epoch == epoch

unfoldable pub can_discard : ℕ → OxTask → Bool
can_discard pk r = r.id == pk && statuses_in discardable_statuses r.status

-- The compare-and-set half of retry and of discard, for the row as it was read.
unfoldable pub retry_write : ℕ → OxTask → Table → Table × Bool
unfolding can_retry retried_row
retry_write pk read t =
    let where_ = λ (r : OxTask). can_retry pk r && at_epoch read.lease_epoch r in
    (update where_ (retried_row read.lease_epoch read.attempts) t, matched where_ t == 1)

unfoldable pub discard_write : ℕ → ℕ → OxTask → Table → Table × Bool
unfolding can_discard discarded_row
discard_write now pk read t =
    let where_ = λ (r : OxTask). can_discard pk r && at_epoch read.lease_epoch r in
    (update where_ (discarded_row now) t, matched where_ t == 1)

abbrev pub write_if : Option OxTask → (OxTask → Table → Table × Bool) → Table → Table × Bool
write_if none write t = (t, false)
write_if (some read) write t = write read t

-- `parse` is what uuid.UUID makes of a text; `between` is what other sessions do between the read
-- and the write.
module _ (parse : String → Option ℕ) where
  unfoldable pub pk_of : ResultId → Option ℕ
  pk_of (uuid n) = some n
  pk_of (other s) = parse s

  unfoldable pub retry : (Table → Table) → ResultId → Table → Table × Bool
  unfolding pk_of retry_write
  retry between result_id t = elim (pk_of result_id) [
    | none ↦ (t, false)
    | some pk ↦ write_if (first (can_retry pk) t) (retry_write pk) (between t)
  ]

  unfoldable pub expire_lease : ℕ → ResultId → Table → Table × Bool
  unfolding pk_of expired_row
  expire_lease now result_id t = elim (pk_of result_id) [
    | none ↦ (t, false)
    | some pk ↦
        let where_ =
          λ (r : OxTask). r.id == pk && status_eq r.status running && not (is_null r.locked_at) in
        (update where_ (expired_row now) t, matched where_ t == 1)
  ]

  unfoldable pub discard : ℕ → (Table → Table) → ResultId → Table → Table × Bool
  unfolding pk_of discard_write
  discard now between result_id t = elim (pk_of result_id) [
    | none ↦ (t, false)
    | some pk ↦ write_if (first (can_discard pk) t) (discard_write now pk) (between t)
  ]

-- The UPDATE of _move_in_key_order for one chunk of ids.
abbrev pub in_chunk : List ℕ → (OxTask → Bool) → OxTask → Bool
in_chunk chunk condition r = any (λ pk. pk == r.id) chunk && condition r

-- The loop over the chunks, in the caller's or its own transaction; `others k` is what other
-- sessions commit before the k-th chunk is locked.
unfoldable pub move_chunks :
    (OxTask → Bool)
    → (OxTask → OxTask)
    → (ℕ → Table → Table)
    → ℕ
    → List (List ℕ)
    → Table
    → Table × ℕ
move_chunks condition set_ others k [] t = (t, 0)
move_chunks condition set_ others k (chunk ∷ rest) t =
    let before = others k t in
    let (t', n) =
      move_chunks condition set_ others (suc k) rest
        (update (in_chunk chunk condition) set_ before) in
    (t', matched (in_chunk chunk condition) before + n)

-- _move_in_key_order: `key` is the order in which the database keeps its keys.
unfoldable pub move_in_key_order :
    (key : ℕ → ℕ)
    → (OxTask → Bool)
    → (OxTask → OxTask)
    → (ℕ → Table → Table)
    → List ℕ
    → Table
    → Table × ℕ
unfolding move_chunks
move_in_key_order key condition set_ others ids t =
    move_chunks condition set_ others 0 (Ids.chunks update_chunk_size (Ids.sort_by key ids)) t

unfoldable pub is_retryable : OxTask → Bool
is_retryable r = statuses_in retryable_statuses r.status && retry_fits r

abbrev pub is_discardable : OxTask → Bool
is_discardable r = statuses_in discardable_statuses r.status

-- F("lease_epoch") + 1 and F("attempts") + 1 read the row itself.
abbrev pub retried_self : OxTask → OxTask
retried_self r = retried_row r.lease_epoch r.attempts r

abbrev pub keys_of : (String → Option ℕ) → List ResultId → List (Option ℕ)
keys_of parse [] = []
keys_of parse (i ∷ is) = pk_of parse i ∷ keys_of parse is

abbrev pub texts_of : (String → Option ℕ) → List ResultId → List String
texts_of parse [] = []
texts_of parse (uuid n ∷ is) = texts_of parse is
texts_of parse (other s ∷ is) =
    if is_null (parse s) then s ∷ texts_of parse is else texts_of parse is

-- (changed, skipped): the distinct ids less those moved, with the distinct malformed ones.
abbrev pub tally : List ℕ → List String → Table × ℕ → Table × ℕ × ℕ
tally ids malformed (t, changed) = (t, changed, length ids + length malformed - changed)

unfoldable pub retry_many :
    (String → Option ℕ) → (ℕ → ℕ) → (ℕ → Table → Table) → List ResultId → Table → Table × ℕ × ℕ
unfolding move_in_key_order is_retryable
retry_many parse key others selection t =
    let ids = Ids.distinct (keys_of parse selection) in
    tally ids (Ids.distinct_texts (texts_of parse selection))
      (move_in_key_order key is_retryable retried_self others ids t)

unfoldable pub discard_many :
    (String → Option ℕ) → (ℕ → ℕ) → ℕ → (ℕ → Table → Table) → List ResultId → Table → Table × ℕ × ℕ
unfolding move_in_key_order
discard_many parse key now others selection t =
    let ids = Ids.distinct (keys_of parse selection) in
    tally ids (Ids.distinct_texts (texts_of parse selection))
      (move_in_key_order key is_discardable (discarded_row now) others ids t)
