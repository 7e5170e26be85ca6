-- ===== src/Cron/Text.antt =====
-- The str methods and int() as src/django_ox/cron.py uses them, on ASCII text: the codes of the
-- characters. (Python's isdigit and int also take digits of other scripts.)
use Prim.Native.Char.{code}
use Prim.Native.String.{[] as none_left, ◌∷◌ as ◌then_code◌}
use django_ox.Prelude.{
  ℕ, ◌+◌, ◌-◌, ◌*◌, String, Bool, true, false, ◌&&◌, ◌||◌, Option, none, some, List, [], ◌∷◌, ◌++◌,
  map, leb, ◌==◌, if◌then◌else◌, any,
}

abbrev pub Text : Type 0
Text = List ℕ

unfoldable pub codes : String → Text
codes none_left = []
codes (c then_code s) = code c ∷ codes s

unfoldable pub text_eq : Text → Text → Bool
text_eq [] [] = true
text_eq [] (d ∷ t) = false
text_eq (c ∷ s) [] = false
text_eq (c ∷ s) (d ∷ t) = c == d && text_eq s t

abbrev pub lower_code : ℕ → ℕ
lower_code c = if leb 65 c && leb c 90 then c + 32 else c

abbrev pub lower : Text → Text
lower s = map lower_code s

abbrev pub is_space : ℕ → Bool
is_space c = (leb 9 c && leb c 13) || (leb 28 c && leb c 32)

abbrev pub is_digit : ℕ → Bool
is_digit c = leb 48 c && leb c 57

abbrev pub is_empty : Text → Bool
is_empty [] = true
is_empty (c ∷ s) = false

abbrev pub strip_left : Text → Text
strip_left [] = []
strip_left (c ∷ s) = let rest = strip_left s in if is_space c then rest else c ∷ s

abbrev pub strip_right : Text → Text
strip_right [] = []
strip_right (c ∷ s) =
    let rest = strip_right s in if is_space c && is_empty rest then [] else c ∷ rest

abbrev pub strip : Text → Text
strip s = strip_right (strip_left s)

abbrev pub with_word : Text → List Text → List Text
with_word [] ws = ws
with_word (c ∷ s) ws = (c ∷ s) ∷ ws

-- str.split() with the word read so far.
unfoldable pub words : Text → Text → List Text
words word [] = with_word word []
words word (c ∷ s) = elim (is_space c) [
  | true ↦ with_word word (words [] s)
  | false ↦ words (word ++ (c ∷ [])) s
]

-- str.split(sep) with the piece read so far.
unfoldable pub split_at : ℕ → Text → Text → List Text
split_at sep piece [] = piece ∷ []
split_at sep piece (c ∷ s) = elim (c == sep) [
  | true ↦ piece ∷ split_at sep [] s
  | false ↦ split_at sep (piece ++ (c ∷ [])) s
]

-- What stands before the first separator, and after it.
abbrev pub partition : ℕ → Text → Text × Text
partition sep [] = ([], [])
partition sep (c ∷ s) = let (a, b) = partition sep s in if c == sep then ([], s) else (c ∷ a, b)

abbrev pub contains : ℕ → Text → Bool
contains c s = any (λ d. d == c) s

abbrev pub all_digits : Text → Bool
all_digits [] = true
all_digits (c ∷ s) = is_digit c && all_digits s

abbrev pub isdigit : Text → Bool
isdigit [] = false
isdigit (c ∷ s) = all_digits (c ∷ s)

-- The digits of int(), single underscores between them.
unfoldable pub digits : (after_digit : Bool) → ℕ → Text → Option ℕ
digits true n [] = some n
digits false n [] = none
digits after_digit n (c ∷ s) = elim (is_digit c) [
  | true ↦ digits true (n * 10 + (c - 48)) s
  | false ↦ elim (c == 95 && after_digit) [ true ↦ digits false n s | false ↦ none ]
]

-- An int as its sign and size; none is the ValueError of int().
pub record Number : Type 0 where
  pub is_minus : Bool
  pub size : ℕ

abbrev pub numbered : Bool → Option ℕ → Option Number
numbered minus none = none
numbered minus (some n) = some (record { is_minus = minus; size = n })

unfoldable pub signed : Text → Option Number
unfolding digits
signed [] = none
signed (c ∷ s) =
    if c == 45
    then numbered true (digits false 0 s)
    else if c == 43
    then numbered false (digits false 0 s)
    else numbered false (digits false 0 (c ∷ s))

unfoldable pub int : Text → Option Number
unfolding signed
int s = signed (strip s)
