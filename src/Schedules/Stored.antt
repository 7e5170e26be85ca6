-- ===== src/Schedules/Stored.antt =====
-- src/django_ox/stored.py: the row of a stored schedule as a caller may give it, and what the rules for
-- it go by.
use django_ox.Prelude.{
  ℕ, Bool, true, false, Option, none, some, List, [], ◌∷◌, String, ltb, ◌==◌, if◌then◌else◌,
}
use django_ox.Cron.Text.{Text}
use django_ox.Waiting.{Call}
pub mod Validate
pub mod Build
pub mod Overflow
pub mod Accepted

infixl 1 ◌>>=◌
abbrev pub ◌>>=◌ {ℓ κ} : {A : Type ℓ} {B : Type κ} → Option A → (A → Option B) → Option B
none >>= f = none
some a >>= f = f a

-- A whole number, as Python has it: `negsuc n` is -(n + 1).
pub data ℤ : Type 0 where
  pos negsuc : ℕ → ℤ

abbrev pub ltℤ : ℤ → ℤ → Bool
ltℤ (pos a) (pos b) = ltb a b
ltℤ (pos a) (negsuc b) = false
ltℤ (negsuc a) (pos b) = true
ltℤ (negsuc a) (negsuc b) = ltb b a

abbrev pub eqℤ : ℤ → ℤ → Bool
eqℤ (pos a) (pos b) = a == b
eqℤ (pos a) (negsuc b) = false
eqℤ (negsuc a) (pos b) = false
eqℤ (negsuc a) (negsuc b) = a == b

-- What a column of whole numbers may hold before it is saved: None, another empty value, a value that
-- is no whole number, or one.
pub data Value : Type 0 where
  missing blank other : Value
  number : ℤ → Value

-- What a column of times may hold; `aware` says that the time has a zone.
pub data Bound : Type 0 where
  no_bound blank_bound not_a_time : Bound
  time : (at : ℕ) (aware : Bool) → Bound

pub data Trigger : Type 0 where
  cron_trigger interval_trigger unknown_trigger : Trigger

-- OxSchedule; `arguments` is none where they are not a mapping.
pub record OxSchedule : Type 0 where
  pub pk : ℕ
  pub task_key : ℕ
  pub trigger : Trigger
  pub cron : Text
  pub every_seconds : Value
  pub phase_seconds : Value
  pub starting_deadline_seconds : Value
  pub start_time : Bound
  pub end_time : Bound
  pub arguments : Option String

-- A registered kind: its form, if it has one, as what it cleans arguments to and whether that is JSON;
-- and the call of its task on the backend, with the arguments.
pub record Form : Type 0 where
  pub cleaned : String → Option String
  pub is_json : String → Bool

pub record Kind : Type 0 where
  pub form : Option Form
  pub call : String → Call

-- The bounds of a column of whole numbers, each of which may be open.
pub record Range : Type 0 where
  pub low : Option ℤ
  pub high : Option ℤ

-- What the rules go by: the registry, the setting USE_TZ, the times that the destination cannot hold,
-- the range that it gives the columns, and the one that the fields themselves hold.
pub record Rules : Type 0 where
  pub kinds : ℕ → Option Kind
  pub registry_decides : Bool
  pub use_tz : Bool
  pub overflows : ℕ → Bool → Bool
  pub destination : Range
  pub held : Range

pub data Column : Type 0 where
  task_key trigger cron every_seconds phase_seconds starting_deadline_seconds : Column
  start_time end_time arguments : Column

pub data Problem : Type 0 where
  not_registered needs_cron bad_cron has_interval needs_interval below_one_second : Problem
  phase_too_long has_cron unknown_kind_of_trigger deadline_below_one without_zone with_zone :
      Problem
  outside_storable_years ends_first not_a_mapping form_refuses not_json : Problem
  below_range above_range too_long empty : Problem

abbrev pub Errors : Type 0
Errors = List (Column × Problem)

abbrev pub error_if : Bool → Column → Problem → Errors
error_if wrong column problem = if wrong then (column, problem) ∷ [] else []

-- _number.
abbrev pub number_of : Value → Option ℤ
number_of missing = none
number_of blank = none
number_of other = none
number_of (number n) = some n

abbrev pub is_missing : Value → Bool
is_missing missing = true
is_missing blank = false
is_missing other = false
is_missing (number n) = false

abbrev pub is_blank : Value → Bool
is_blank missing = false
is_blank blank = true
is_blank other = false
is_blank (number n) = false

abbrev pub no_text : Text → Bool
no_text [] = true
no_text (c ∷ cs) = false
