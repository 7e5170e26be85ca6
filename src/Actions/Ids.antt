-- ===== src/Actions/Ids.antt =====
-- The ids of a selection: distinct in the order given, sorted by the database's key, in chunks
-- (_ids, _key_order, _uuid_bytes, _mariadb_uuid_order, _chunks).
use django_ox.Prelude.{
  ℕ, zero, suc, ◌+◌, ◌-◌, ◌*◌, ◌/◌, ◌%◌, ◌^◌, Bool, true, false, ◌&&◌, Option, none, some, List, [],
  ◌∷◌, ◌++◌, String, ltb, leb, ◌==◌, if◌then◌else◌, any, sort, take, drop, length,
}
use text.Mathlib.Text.{◌==◌ as str_eq}

-- `seen.setdefault(pk, None)`, then the keys in the order of their first occurrence.
abbrev pub add_new : ℕ → List ℕ → List ℕ
add_new pk seen = if any (λ x. x == pk) seen then seen else seen ++ pk ∷ []

unfoldable pub distinct_from : List ℕ → List (Option ℕ) → List ℕ
distinct_from seen [] = seen
distinct_from seen (none ∷ rest) = distinct_from seen rest
distinct_from seen (some pk ∷ rest) = distinct_from (add_new pk seen) rest

unfoldable pub distinct : List (Option ℕ) → List ℕ
unfolding distinct_from
distinct = distinct_from []

unfoldable pub distinct_texts : List String → List String
distinct_texts [] = []
distinct_texts (s ∷ ss) =
    let rest = distinct_texts ss in if any (str_eq s) rest then rest else s ∷ rest

-- `sorted(ids, key=key)`.
abbrev pub sort_by : (ℕ → ℕ) → List ℕ → List ℕ
sort_by key = sort (λ a b. leb (key a) (key b))

-- `items[start : start + size]` for start in range(0, len(items), size). The fuel is the length:
-- each chunk but an empty one takes an item.
module _ {ℓ} {A : Type ℓ} where
  unfoldable pub chunks_within : ℕ → ℕ → List A → List (List A)
  chunks_within zero size xs = []
  chunks_within (suc fuel) size [] = []
  chunks_within (suc fuel) size (x ∷ xs) =
      take size (x ∷ xs) ∷ chunks_within fuel size (drop size (x ∷ xs))

  unfoldable pub chunks : ℕ → List A → List (List A)
  unfolding chunks_within
  chunks size xs = chunks_within (length xs) size xs

-- Byte `i` of the 16 bytes of a UUID.
abbrev pub byte : ℕ → ℕ → ℕ
byte pk i = pk / 256 ^ (15 - i) % 256

-- Bytes `i` to `j - 1`, as one number.
abbrev pub field : ℕ → ℕ → ℕ → ℕ
field pk i j = pk / 256 ^ (16 - j) % 256 ^ (j - i)

-- _mariadb_uuid_order: raw[10:] + raw[8:10] + raw[6:8] + raw[4:6] + raw[:4] for such a value.
unfoldable pub mariadb_uuid_order : ℕ → ℕ
mariadb_uuid_order pk =
    if ltb 0 (byte pk 6) && ltb (byte pk 6) 96 && leb 128 (byte pk 8)
    then field pk 10 16 * 256 ^ 10
      + field pk 8 10 * 256 ^ 8
      + field pk 6 8 * 256 ^ 6
      + field pk 4 6 * 256 ^ 4
      + field pk 0 4
    else pk

-- _key_order: bytes compare as the number that they spell.
unfoldable pub key_order : (is_mariadb_native : Bool) → ℕ → ℕ
unfolding mariadb_uuid_order
key_order true pk = mariadb_uuid_order pk
key_order false pk = pk
