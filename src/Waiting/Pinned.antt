-- ===== src/Waiting/Pinned.antt =====
-- Rows pinned to the epochs given with them: _pinned and _pinned_rows.
use django_ox.Prelude.{
  ℕ, ◌+◌, Bool, false, ◌&&◌, Option, none, some, List, [], ◌∷◌, ◌++◌, String, leb, ◌==◌,
  if◌then◌else◌, any, sort, is_null,
}
pub mod Exact
use django_ox.Store.{OxTask, Status, statuses_in}
use django_ox.Actions.{ResultId, pk_of}

-- `seen.setdefault(pk, epoch)`: the first epoch given for a key stays.
abbrev pub set_default : ℕ → ℕ → List (ℕ × ℕ) → List (ℕ × ℕ)
set_default pk epoch seen = if any (λ p. p.0 == pk) seen then seen else seen ++ (pk, epoch) ∷ []

abbrev pub see : Option ℕ → ℕ → List (ℕ × ℕ) → List (ℕ × ℕ)
see none epoch seen = seen
see (some pk) epoch seen = set_default pk epoch seen

unfoldable pub seen_from : (String → Option ℕ) → List (ℕ × ℕ) → List (ResultId × ℕ) → List (ℕ × ℕ)
unfolding pk_of
seen_from parse seen [] = seen
seen_from parse seen ((task_id, epoch) ∷ rest) =
    seen_from parse (see (pk_of parse task_id) epoch seen) rest

-- `sorted(seen.items(), key=...)`.
abbrev pub sort_pairs : (ℕ → ℕ) → List (ℕ × ℕ) → List (ℕ × ℕ)
sort_pairs key = sort (λ a b. leb (key a.0) (key b.0))

-- The pairs that _pinned returns; `malformed` are the ids that it returns beside them.
unfoldable pub pinned : (String → Option ℕ) → (ℕ → ℕ) → List (ResultId × ℕ) → List (ℕ × ℕ)
unfolding seen_from sort
pinned parse key rows = sort_pairs key (seen_from parse [] rows)

unfoldable pub malformed : (String → Option ℕ) → List (ResultId × ℕ) → List String
unfolding pk_of
malformed parse [] = []
malformed parse ((ResultId.uuid n, epoch) ∷ rest) = malformed parse rest
malformed parse ((ResultId.other s, epoch) ∷ rest) =
    let others = malformed parse rest in if is_null (parse s) then s ∷ others else others

abbrev pub has_epoch : ℕ → List ℕ → Bool
has_epoch e es = any (λ x. x == e) es

-- The set of epochs of a chunk; the order of a set of When branches with disjoint keys is free.
unfoldable pub epochs_of : List (ℕ × ℕ) → List ℕ
epochs_of [] = []
epochs_of ((pk, e) ∷ rest) = let es = epochs_of rest in if has_epoch e es then es else e ∷ es

abbrev pub names_key : ℕ → List (ℕ × ℕ) → Bool
names_key pk chunk = any (λ p. p.0 == pk) chunk

-- Case(When(pk__in=[...], then=epoch), ...): the first branch that names the key, else NULL.
unfoldable pub case_epoch : List (ℕ × ℕ) → List ℕ → ℕ → Option ℕ
case_epoch chunk [] pk = none
case_epoch chunk (e ∷ es) pk =
    let later = case_epoch chunk es pk in
    if any (λ p. p.0 == pk && p.1 == e) chunk then some e else later

abbrev pub equals : ℕ → Option ℕ → Bool
equals n none = false
equals n (some m) = n == m

-- One epoch for the whole chunk, or the Case.
abbrev pub epoch_matches : List (ℕ × ℕ) → List ℕ → OxTask → Bool
epoch_matches chunk (e ∷ []) r = r.lease_epoch == e
epoch_matches chunk es r = equals r.lease_epoch (case_epoch chunk es r.id)

unfoldable pub pinned_rows : List (ℕ × ℕ) → List Status → OxTask → Bool
unfolding epochs_of case_epoch
pinned_rows chunk statuses r =
    names_key r.id chunk && statuses_in statuses r.status && epoch_matches chunk (epochs_of chunk) r
