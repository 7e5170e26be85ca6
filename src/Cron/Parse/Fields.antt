-- ===== src/Cron/Parse/Fields.antt =====
-- CronExpression.__init__: the fields of an expression.
use django_ox.Prelude.{
  ℕ, zero, suc, ◌+◌, ◌≤◌, ◌≡◌, inl, inr, Bool, true, false, ◌&&◌, not, List, [], ◌∷◌, map, ltb,
  ◌==◌, if◌then◌else◌, All, Bool-cases, arith, sym,
}
use django_ox.Cron.Text.{Text, words, split_at, strip, lower, text_eq, partition}
use django_ox.Cron.Parse.{
  parsed, Names, get, range, add_all, parse_step, parse_body, parse_part, parse_parts, parse_field,
  month_names, weekday_names, fold_sunday, can_match, from_fields, parse, macros, macro_or,
  reachable,
}
use django_ox.Cron.Parse.Valid.{
  Within, Between, raised-ne-parsed, parsed-inj, and_then-parsed, range-Between, add_all-Within,
  parse_body-Between,
}
use django_ox.Cron.Walk.{CronExpression}
use django_ox.Cron.Walk.Following.{InOrder}

module _ (low high : ℕ) (names : Names) (l : low ≤ high) where
  parse_part-Between :
      (part : Text) (values : List ℕ)
      → parse_part part low high names ≡ parsed values
      → All (Between low high) values
  unfolding parse_part
  parse_part-Between part values h =
      let (step, a, b) = and_then-parsed (parse_step (partition 47 part).1 low high) _ h in
      let (ends, c, d) =
        and_then-parsed (parse_body (partition 47 part).0 (partition 47 part).1 low high names) _
          b in
      let (p, q) =
        parse_body-Between (partition 47 part).0 (partition 47 part).1 low high names ends l c in
      let same : range (suc ends.1) ends.0 (suc ends.1) step ≡ values = parsed-inj d in
      rw (sym same)
        (range-Between (suc ends.1) low high ends.0 (suc ends.1) step p.0 (ground arith))

  parse_parts-Within :
      (parts : List Text) (values all : List ℕ)
      → Within low high values
      → parse_parts parts low high names values ≡ parsed all
      → Within low high all
  unfolding parse_parts
  parse_parts-Within [] values all w h = rw (sym (parsed-inj h)) w
  parse_parts-Within (part ∷ parts) values all w h =
      let (found, a, b) = and_then-parsed (parse_part part low high names) _ h in
      parse_parts-Within parts (add_all found values) all
        (add_all-Within low high found values (parse_part-Between part found a) w) b

All-weaker : (P Q : ℕ → Type 0) (f : (x : ℕ) → P x → Q x) (xs : List ℕ) → All P xs → All Q xs
All-weaker P Q f [] a = tt
All-weaker P Q f (x ∷ xs) a = (f x a.0, All-weaker P Q f xs a.1)

range-InOrder : (fuel high first : ℕ) → InOrder (suc high) (range fuel first (suc high) 1)
unfolding range
range-InOrder zero high first = tt
range-InOrder (suc fuel) high first = elim (Bool-cases (ltb first (suc high))) [
  | inl q ↦
      let above : All (Between (first + 1) high) (range fuel (first + 1) (suc high) 1) =
        range-Between fuel (first + 1) high (first + 1) (suc high) 1 (ground arith)
          (ground arith) in
      rw q (
        ground arith,
        All-weaker (Between (first + 1) high) (λ y. first ≤ y) (λ x b. ground arith)
            (range fuel (first + 1) (suc high) 1) above,
        range-InOrder fuel high (first + 1),
      )
  | inr q ↦ rw q tt
]

star-Within : (low high : ℕ) → Within low high (range (suc high) low (suc high) 1)
star-Within low high = (
  range-InOrder (suc high) high low,
  All-weaker (Between low high) (λ x. low ≤ x) (λ x b. b.0) (range (suc high) low (suc high) 1)
      (range-Between (suc high) low high low (suc high) 1 (ground arith) (ground arith)),
)

parse_field-Within :
    (field : Text) (low high : ℕ) (names : Names) (v : List ℕ × Bool)
    → low ≤ high
    → parse_field field low high names ≡ parsed v
    → Within low high v.0
unfolding parse_field
parse_field-Within field low high names v l h = elim (Bool-cases (text_eq field (42 ∷ []))) [
  | inl q ↦
      let same : (range (suc high) low (suc high) 1, false) ≡ v = parsed-inj (rw q at h) in
      rw (sym same) (star-Within low high)
  | inr q ↦
      let (values, a, b) =
        and_then-parsed (parse_parts (split_at 44 [] field) low high names []) _ (rw q at h) in
      let same : (values, true) ≡ v = parsed-inj b in
      rw (sym same)
        (parse_parts-Within low high names l (split_at 44 [] field) [] values (tt, tt) a)
]

fold-Between :
    (days : List ℕ) → Within 0 7 days → All (Between 0 6) (map (λ d. if d == 7 then 0 else d) days)
fold-Between [] w = tt
fold-Between (d ∷ days) w = elim (Bool-cases (d == 7)) [
  | inl q ↦ rw q ((ground arith, ground arith), fold-Between days (w.0.2, w.1.1))
  | inr q ↦ rw q ((ground arith, ground arith), fold-Between days (w.0.2, w.1.1))
]

fold_sunday-Within : (days : List ℕ) → Within 0 7 days → Within 0 6 (fold_sunday days)
unfolding fold_sunday
fold_sunday-Within days w =
    add_all-Within 0 6 (map (λ d. if d == 7 then 0 else d) days) [] (fold-Between days w) (tt, tt)

-- What a parsed expression holds: each field in order and between its bounds, Sunday as 0, and a
-- day for a restricted day-of-month to fall on.
pub record IsValid (e : CronExpression) : Type 0 where
  pub minutes_within : Within 0 59 e.minutes
  pub hours_within : Within 0 23 e.hours
  pub days_within : Within 1 31 e.days_of_month
  pub months_within : Within 1 12 e.months
  pub weekdays_within : Within 0 6 e.days_of_week
  pub can_tick :
      e.dom_restricted ≡ true → e.dow_restricted ≡ false → reachable e.months e.days_of_month ≡ true

can_match-kept : (e e' : CronExpression) → can_match e ≡ parsed e' → e ≡ e'
can_match-kept e e' h =
    elim (Bool-cases
      (e.dom_restricted && not e.dow_restricted && not (reachable e.months e.days_of_month))) [
        | inl q ↦ absurd (raised-ne-parsed (rw q at h))
        | inr q ↦ parsed-inj (rw q at h)
      ]

can_match-reachable :
    (e e' : CronExpression)
    → can_match e ≡ parsed e'
    → e.dom_restricted ≡ true
    → e.dow_restricted ≡ false
    → reachable e.months e.days_of_month ≡ true
can_match-reachable e e' h r s = elim (Bool-cases (reachable e.months e.days_of_month)) [
  | inl q ↦ q
  | inr q ↦ absurd (raised-ne-parsed (rw (r, s, q) at h))
]

from_fields-IsValid :
    (fields : List Text) (e : CronExpression) → from_fields fields ≡ parsed e → IsValid e
unfolding from_fields
from_fields-IsValid (f1 ∷ f2 ∷ f3 ∷ f4 ∷ f5 ∷ []) e h =
    let (minutes, a, ha) = and_then-parsed (parse_field f1 0 59 []) _ h in
    let (hours, b, hb) = and_then-parsed (parse_field f2 0 23 []) _ ha in
    let (dom, c, hc) = and_then-parsed (parse_field f3 1 31 []) _ hb in
    let (months, d, hd) = and_then-parsed (parse_field f4 1 12 month_names) _ hc in
    let (dow, g, hg) = and_then-parsed (parse_field f5 0 7 weekday_names) _ hd in
    let made : CronExpression = record {
      minutes = minutes.0;
      hours = hours.0;
      days_of_month = dom.0;
      months = months.0;
      days_of_week = fold_sunday dow.0;
      dom_restricted = dom.1;
      dow_restricted = dow.1;
    } in
    let week : Within 0 7 dow.0 = parse_field-Within f5 0 7 weekday_names dow (ground arith) g in
    let valid : IsValid made = record {
      minutes_within = parse_field-Within f1 0 59 [] minutes (ground arith) a;
      hours_within = parse_field-Within f2 0 23 [] hours (ground arith) b;
      days_within = parse_field-Within f3 1 31 [] dom (ground arith) c;
      months_within = parse_field-Within f4 1 12 month_names months (ground arith) d;
      weekdays_within = fold_sunday-Within dow.0 week;
      can_tick = can_match-reachable made e hg;
    } in
    rw (sym (can_match-kept made e hg)) valid
from_fields-IsValid [] e h = absurd (raised-ne-parsed h)
from_fields-IsValid (f1 ∷ []) e h = absurd (raised-ne-parsed h)
from_fields-IsValid (f1 ∷ f2 ∷ []) e h = absurd (raised-ne-parsed h)
from_fields-IsValid (f1 ∷ f2 ∷ f3 ∷ []) e h = absurd (raised-ne-parsed h)
from_fields-IsValid (f1 ∷ f2 ∷ f3 ∷ f4 ∷ []) e h = absurd (raised-ne-parsed h)
from_fields-IsValid (f1 ∷ f2 ∷ f3 ∷ f4 ∷ f5 ∷ f6 ∷ fs) e h = absurd (raised-ne-parsed h)

-- A text that parses gives an expression whose fields are ascending and within their bounds, with
-- 7 folded onto Sunday's 0 among the weekdays, and where only the day of the month is restricted
-- some listed month has a listed day.
pub parse-IsValid : (s : Text) (e : CronExpression) → parse s ≡ parsed e → IsValid e
unfolding parse
parse-IsValid s e h =
    from_fields-IsValid (words [] (macro_or (strip s) (get macros (lower (strip s))))) e h
