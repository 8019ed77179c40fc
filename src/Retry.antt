-- ===== src/Retry.antt =====
-- util/retryutil/retry_util.go: `Retry`. The function that is retried acts on a state `S` and
-- answers `(bool, error)`; waiting for the ticker is left out.
pub mod Attempts
use rainbond_operator.Base.{ℕ, zero, suc, Bool, true, false, Option, none, some}

-- What `f` answers: `(true, nil)`, `(false, nil)` and an error.
pub data Attempt (E : Type 0) : Type 0 where
  done again : Attempt E
  fail : E → Attempt E

-- The error of `Retry`: that `maxRetries` is not positive, one of `f`, and `RetryError`.
pub data RetryFailure (E : Type 0) : Type 0 where
  bad_max_retries : ℕ → RetryFailure E
  failed : E → RetryFailure E
  still_failing : ℕ → RetryFailure E

module _ {S E : Type 0} where
  -- The loop from the round on after which `left` more are allowed.
  unfoldable pub retry_loop : ℕ → ℕ → (S → Attempt E × S) → S → Option (RetryFailure E) × S
  retry_loop max_retries zero f s =
      let (answer, s') = f s in
      elim answer [
        | done ↦ (none, s')
        | again ↦ (some (still_failing max_retries), s')
        | fail e ↦ (some (failed e), s')
      ]
  retry_loop max_retries (suc left) f s =
      let (answer, s') = f s in
      elim answer [
        | done ↦ (none, s')
        | again ↦ retry_loop max_retries left f s'
        | fail e ↦ (some (failed e), s')
      ]

  unfoldable pub retry : ℕ → (S → Attempt E × S) → S → Option (RetryFailure E) × S
  unfolding retry_loop
  retry zero f s = (some (bad_max_retries 0), s)
  retry (suc n) f s = retry_loop (suc n) (suc n) f s
