-- ===== src/Actions/Contention.antt =====
-- src/django_ox/_contention.py: is_contention, attempts and run.
use django_ox.Prelude.{
  ℕ, zero, suc, Bool, true, false, ◌&&◌, ◌||◌, not, Option, none, some, String, ◌==◌, if◌then◌else◌,
}
use text.Mathlib.Text.{◌==◌ as str_eq}
pub mod Retries

-- What is_contention reads of one exception: sqlstate or pgcode, and the first argument if it is
-- an int.
pub record DriverError : Type 0 where
  pub state : Option String
  pub number : Option ℕ

abbrev pub sqlstate_contends : Option String → Bool
sqlstate_contends none = false
sqlstate_contends (some s) = str_eq s "40P01" || str_eq s "40001"

abbrev pub number_contends : Option ℕ → Bool
number_contends none = false
number_contends (some n) = n == 1213

abbrev pub error_contends : DriverError → Bool
error_contends e = sqlstate_contends e.state || number_contends e.number

-- The exception, then its cause if it has one.
unfoldable pub is_contention : DriverError → Option DriverError → Bool
is_contention exc none = error_contends exc
is_contention exc (some cause) = error_contends exc || error_contends cause

abbrev pub tries_allowed : ℕ
tries_allowed = 3

-- attempts(using).
unfoldable pub attempts : (autocommit in_atomic_block : Bool) → ℕ
attempts autocommit in_atomic_block = if autocommit && not in_atomic_block then tries_allowed else 1

-- How one call of the body ends: its value, or a database error with what is_contention says.
pub data Ending {ℓ} (A : Type ℓ) : Type ℓ where
  value : A → Ending A
  database_error : (contends : Bool) → Ending A
  other_error : Ending A

abbrev pub before : ℕ → ℕ
before n = elim n [ zero ↦ zero | suc m ↦ m ]

-- The loop of `run` from call `attempt` on, with `left` further calls allowed after it. The result
-- is how the last call ended, and its number.
module _ {ℓ} {A : Type ℓ} where
  unfoldable pub run_from : (body : ℕ → Ending A) → (left attempt : ℕ) → Ending A × ℕ
  run_from body zero attempt = (body attempt, attempt)
  run_from body (suc left) attempt = elim (body attempt) [
    | value a ↦ (value a, attempt)
    | database_error true ↦ run_from body left (suc attempt)
    | database_error false ↦ (database_error false, attempt)
    | other_error ↦ (other_error, attempt)
  ]

  unfoldable pub run : (tries : ℕ) (body : ℕ → Ending A) → Ending A × ℕ
  unfolding run_from
  run tries body = run_from body (before tries) 1
