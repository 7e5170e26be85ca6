-- ===== src/Cron/Parse.antt =====
-- _parse_value, _parse_field and CronExpression.__init__.
use django_ox.Prelude.{
  ℕ, zero, suc, ◌+◌, ◌-◌, ◌*◌, String, Bool, true, false, ◌&&◌, ◌||◌, not, Option, none, some, List,
  [], ◌∷◌, map, ltb, leb, ◌==◌, if◌then◌else◌, any,
}
use django_ox.Cron.Text.{
  Text, codes, text_eq, lower, strip, words, split_at, partition, contains, isdigit, Number, int,
}
use django_ox.Cron.Walk.{CronExpression}
pub mod Valid
pub mod Fields

-- The ValueErrors, by what is wrong.
pub data ValueError : Type 0 where
  invalid_value : Text → ValueError
  outside : Text → ValueError
  invalid_step : Text → ValueError
  step_exceeds : Text → ValueError
  descending : Text → ValueError
  not_five_fields : ValueError
  never_matches : ValueError

pub data Parsed {ℓ} (A : Type ℓ) : Type ℓ where
  raised : ValueError → Parsed A
  parsed : A → Parsed A

abbrev pub and_then {ℓ κ} : {A : Type ℓ} {B : Type κ} → Parsed A → (A → Parsed B) → Parsed B
and_then (raised e) f = raised e
and_then (parsed a) f = f a

abbrev pub Names : Type 0
Names = List (Text × ℕ)

-- Names for the numbers from one on.
unfoldable pub numbered_from : ℕ → List String → Names
unfolding codes
numbered_from n [] = []
numbered_from n (s ∷ ss) = (codes s, n) ∷ numbered_from (suc n) ss

unfoldable pub month_names : Names
month_names = numbered_from 1 (
    "jan" ∷ "feb" ∷ "mar" ∷ "apr" ∷ "may" ∷ "jun" ∷ "jul" ∷ "aug" ∷ "sep" ∷ "oct" ∷ "nov" ∷ "dec"
    ∷ [])

unfoldable pub weekday_names : Names
weekday_names = numbered_from 0 ("sun" ∷ "mon" ∷ "tue" ∷ "wed" ∷ "thu" ∷ "fri" ∷ "sat" ∷ [])

-- dict.get.
unfoldable pub get {ℓ} : {A : Type ℓ} → List (Text × A) → Text → Option A
unfolding text_eq
get [] key = none
get ((k, n) ∷ names) key = let rest = get names key in if text_eq k key then some n else rest

-- The value as an int: the name's number, or int(text).
abbrev value_of : Text → Option ℕ → Option Number
value_of s (some n) = some (record { is_minus = false; size = n })
value_of s none = int s

abbrev in_range : ℕ → ℕ → Number → Bool
in_range low high v =
    (if v.is_minus then low == 0 && v.size == 0 else leb low v.size) && leb v.size high

abbrev checked : Text → ℕ → ℕ → Option Number → Parsed ℕ
checked s low high none = raised (invalid_value s)
checked s low high (some v) = if in_range low high v then parsed v.size else raised (outside s)

unfoldable pub parse_value : Text → ℕ → ℕ → Names → Parsed ℕ
unfolding get
parse_value s low high names = checked s low high (value_of s (get names (lower s)))

-- range(first, stop, step); as many rounds as numbers below the stop are enough.
unfoldable pub range : ℕ → ℕ → ℕ → ℕ → List ℕ
range zero first stop step = []
range (suc fuel) first stop step =
    let rest = range fuel (first + step) stop step in if ltb first stop then first ∷ rest else []

-- A set of numbers, kept as the tuple that sorted() makes of it.
unfoldable pub add : ℕ → List ℕ → List ℕ
add n [] = n ∷ []
add n (x ∷ xs) =
    let rest = add n xs in if ltb n x then n ∷ x ∷ xs else if n == x then x ∷ xs else x ∷ rest

unfoldable pub add_all : List ℕ → List ℕ → List ℕ
unfolding add
add_all [] values = values
add_all (n ∷ ns) values = add n (add_all ns values)

abbrev step_in_range : Text → ℕ → ℕ → Option Number → Parsed ℕ
step_in_range s low high none = raised (invalid_step s)
step_in_range s low high (some v) =
    if v.size == 0
    then raised (invalid_step s)
    else if ltb (high - low + 1) v.size
    then raised (step_exceeds s)
    else parsed v.size

-- The step after the slash; an absent or empty one is 1.
unfoldable pub parse_step : Text → ℕ → ℕ → Parsed ℕ
parse_step [] low high = parsed 1
parse_step (c ∷ s) low high =
    if isdigit (c ∷ s)
    then step_in_range (c ∷ s) low high (int (c ∷ s))
    else raised (invalid_step (c ∷ s))

abbrev ascending : Text → ℕ → ℕ → Parsed (ℕ × ℕ)
ascending body first last =
    if ltb last first then raised (descending body) else parsed (first, last)

abbrev last_value : Text → ℕ → ℕ → ℕ
last_value [] high first = first
last_value (c ∷ s) high first = high

-- The first and the last value of a part.
unfoldable pub parse_body : Text → Text → ℕ → ℕ → Names → Parsed (ℕ × ℕ)
unfolding parse_value
parse_body body step_text low high names =
    if text_eq body (42 ∷ [])
    then parsed (low, high)
    else if contains 45 body
    then (let (first_text, last_text) = partition 45 body in
        and_then (parse_value first_text low high names) λ first.
          and_then (parse_value last_text low high names) λ last. ascending body first last)
    else and_then (parse_value body low high names)
        λ first. parsed (first, last_value step_text high first)

unfoldable pub parse_part : Text → ℕ → ℕ → Names → Parsed (List ℕ)
unfolding parse_step parse_body range
parse_part part low high names =
    let (body, step_text) = partition 47 part in
    and_then (parse_step step_text low high) λ step.
      and_then (parse_body body step_text low high names)
        λ ends. let (first, last) = ends in parsed (range (suc last) first (suc last) step)

unfoldable pub parse_parts : List Text → ℕ → ℕ → Names → List ℕ → Parsed (List ℕ)
unfolding parse_part add_all
parse_parts [] low high names values = parsed values
parse_parts (part ∷ parts) low high names values =
    and_then (parse_part part low high names)
      λ found. parse_parts parts low high names (add_all found values)

abbrev with_flag : Parsed (List ℕ) → Parsed (List ℕ × Bool)
with_flag p = and_then p λ values. parsed (values, true)

unfoldable pub parse_field : Text → ℕ → ℕ → Names → Parsed (List ℕ × Bool)
unfolding parse_parts range split_at
parse_field field low high names =
    if text_eq field (42 ∷ [])
    then parsed (range (suc high) low (suc high) 1, false)
    else with_flag (parse_parts (split_at 44 [] field) low high names [])

unfoldable pub macros : List (Text × Text)
unfolding codes
macros =
    (codes "@yearly", codes "0 0 1 1 *")
    ∷ (codes "@annually", codes "0 0 1 1 *")
    ∷ (codes "@monthly", codes "0 0 1 * *")
    ∷ (codes "@weekly", codes "0 0 * * 0")
    ∷ (codes "@daily", codes "0 0 * * *")
    ∷ (codes "@midnight", codes "0 0 * * *")
    ∷ (codes "@hourly", codes "0 * * * *")
    ∷ []

-- The most days of a month in any year.
unfoldable pub max_days : ℕ → ℕ
max_days m = if m == 2 then 29 else if m == 4 || m == 6 || m == 9 || m == 11 then 30 else 31

unfoldable pub reachable : List ℕ → List ℕ → Bool
unfolding max_days
reachable months days = any (λ m. any (λ d. leb d (max_days m)) days) months

-- 7 folds onto 0.
unfoldable pub fold_sunday : List ℕ → List ℕ
unfolding add_all
fold_sunday days = add_all (map (λ d. if d == 7 then 0 else d) days) []

abbrev pub can_match : CronExpression → Parsed CronExpression
can_match e =
    if e.dom_restricted && not e.dow_restricted && not (reachable e.months e.days_of_month)
    then raised never_matches
    else parsed e

unfoldable pub from_fields : List Text → Parsed CronExpression
unfolding parse_field
from_fields (f1 ∷ f2 ∷ f3 ∷ f4 ∷ f5 ∷ []) = and_then (parse_field f1 0 59 []) λ minutes.
    and_then (parse_field f2 0 23 []) λ hours. and_then (parse_field f3 1 31 []) λ dom.
      and_then (parse_field f4 1 12 month_names) λ months.
        and_then (parse_field f5 0 7 weekday_names) λ dow. can_match (record {
          minutes = minutes.0;
          hours = hours.0;
          days_of_month = dom.0;
          months = months.0;
          days_of_week = fold_sunday dow.0;
          dom_restricted = dom.1;
          dow_restricted = dow.1;
        })
from_fields other = raised not_five_fields

abbrev macro_or : Text → Option Text → Text
macro_or s (some m) = m
macro_or s none = s

-- CronExpression(expression).
unfoldable pub parse : Text → Parsed CronExpression
unfolding words get
parse expression =
    let s = strip expression in from_fields (words [] (macro_or s (get macros (lower s))))
