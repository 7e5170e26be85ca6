-- ===== src/Actions/Contention/Retries.antt =====
-- run: how often it calls the body, and what it gives back.
use django_ox.Prelude.{
  ℕ, zero, suc, ◌+◌, ◌≤◌, ◌<◌, ◌≡◌, ◌≢◌, refl, sym, ◌∙◌, inl, inr, true, false, arith, ltb,
  Bool-cases,
}
use django_ox.Actions.Contention.{Ending, value, database_error, other_error, run_from, run}

-- The call `n` ended the loop: within its tries, after contention in every call before it, and not
-- in contention itself unless it was the last that was allowed.
pub record Ends {ℓ} {A : Type ℓ} (body : ℕ → Ending A) (first last : ℕ) (result : Ending A × ℕ)
    : Type ℓ where
  pub from : first ≤ result.1
  pub within : result.1 ≤ last
  pub result_of : result.0 ≡ body result.1
  pub contended : (k : ℕ) → first ≤ k → k < result.1 → body k ≡ database_error true
  pub settled : result.1 < last → body result.1 ≢ database_error true

module _ {ℓ} {A : Type ℓ} (body : ℕ → Ending A) where
  stops :
      (left attempt : ℕ) (e : Ending A)
      → body attempt ≡ e
      → e ≢ database_error true
      → Ends body attempt (attempt + left) (e, attempt)
  stops left attempt e q h = record {
    from = omega arith;
    within = omega arith;
    result_of = sym q;
    contended = λ k a b. absurd (omega arith);
    settled = λ l z. h (sym q ∙ z);
  }

  goes_on :
      (left attempt : ℕ) (result : Ending A × ℕ)
      → body attempt ≡ database_error true
      → Ends body (suc attempt) (suc attempt + left) result
      → Ends body attempt (attempt + suc left) result
  goes_on left attempt result q r = record {
    from = ground (arith, r.from);
    within = ground (arith, r.within);
    result_of = r.result_of;
    contended = λ k a b. elim (Bool-cases (ltb attempt k)) [
      | inl m ↦ r.contended k (ground arith) b
      | inr m ↦ let same : k ≡ attempt = ground arith in rw same q
    ];
    settled = λ l. r.settled (ground arith);
  }

  one_call :
      (left attempt : ℕ) (e : Ending A)
      → body attempt ≡ e
      → Ends body (suc attempt) (suc attempt + left) (run_from body left (suc attempt))
      → Ends body attempt (attempt + suc left) (run_from body (suc left) attempt)
  unfolding run_from
  one_call left attempt (value a) q r =
      rw (q, run_from) (stops (suc left) attempt (value a) q (λ h. cc))
  one_call left attempt (database_error true) q r =
      rw (q, run_from) (goes_on left attempt (run_from body left (suc attempt)) q r)
  one_call left attempt (database_error false) q r =
      rw (q, run_from) (stops (suc left) attempt (database_error false) q (λ h. cc))
  one_call left attempt other_error q r =
      rw (q, run_from) (stops (suc left) attempt other_error q (λ h. cc))

  run_from-Ends :
      (left attempt : ℕ) → Ends body attempt (attempt + left) (run_from body left attempt)
  unfolding run_from
  run_from-Ends zero attempt = record {
    from = omega arith;
    within = omega arith;
    result_of = refl;
    contended = λ k a b. absurd (omega arith);
    settled = λ l. absurd (omega arith);
  }
  run_from-Ends (suc left) attempt =
      one_call left attempt (body attempt) refl (run_from-Ends left (suc attempt))

-- Of `tries` calls at most, at least one, `run` gives back how the last one it made ended, its number
-- with it: every call before that one ended in contention, and that one did not, unless it was the
-- last one allowed.
pub run-Ends {ℓ} :
    {A : Type ℓ} (tries : ℕ) (body : ℕ → Ending A) → 1 ≤ tries → Ends body 1 tries (run tries body)
unfolding run
run-Ends (suc left) body h =
    let same : 1 + left ≡ suc left = omega arith in rw same at (run_from-Ends body left 1)
run-Ends zero body h = absurd (omega arith)
