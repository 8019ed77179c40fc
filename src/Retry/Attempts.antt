-- ===== src/Retry/Attempts.antt =====
-- How often `Retry` calls its function, and what it answers.
use rainbond_operator.Base.{ℕ, zero, suc, ◌≤◌, ◌<◌, Option, none, some, ◌≡◌, ◌≢◌, arith}
use rainbond_operator.Retry.{
  Attempt, done, again, fail, RetryFailure, failed, still_failing, retry_loop, retry,
}

module _ {S E : Type 0} (f : S → Attempt E × S) where
  -- The state after `n` calls.
  abbrev pub after : ℕ → S → S
  after zero s = s
  after (suc n) s = after n (f s).1

  -- The first `n` calls all ask to be called again.
  abbrev pub KeepsAsking : ℕ → S → Type 0
  KeepsAsking zero s = Unit
  KeepsAsking (suc n) s = ((f s).0 ≡ again) × KeepsAsking n (f s).1

  abbrev pub verdict : Attempt E → ℕ → Option (RetryFailure E)
  verdict done n = none
  verdict again n = some (still_failing n)
  verdict (fail e) n = some (failed e)

  loop_verdict :
      (m k n : ℕ) (s : S)
      → k ≤ n
      → KeepsAsking k s
      → (f (after k s)).0 ≢ again
      → retry_loop m n f s ≡ (verdict (f (after k s)).0 m, after (suc k) s)
  unfolding retry_loop
  loop_verdict m zero zero s h a g = ground arith
  loop_verdict m zero (suc n) s h a g = ground arith
  loop_verdict m (suc k) zero s h a g = absurd (omega arith)
  loop_verdict m (suc k) (suc n) s h a g =
      ground (arith, loop_verdict m k n (f s).1 (omega arith) a.1 g)

  loop_exhausted :
      (m n : ℕ) (s : S)
      → KeepsAsking (suc n) s
      → retry_loop m n f s ≡ (some (still_failing m), after (suc n) s)
  unfolding retry_loop
  loop_exhausted m zero s a = ground arith
  loop_exhausted m (suc n) s a = ground (arith, loop_exhausted m n (f s).1 a.1)

  -- `Retry` with `max_retries` retries ends with the first call that does not ask for another one,
  -- if that is among the first `max_retries + 1`: its answer is that call's, and the function has
  -- been called that often.
  pub retry-first :
      (max_retries k : ℕ) (s : S)
      → 0 < max_retries
      → k ≤ max_retries
      → KeepsAsking k s
      → (f (after k s)).0 ≢ again
      → retry max_retries f s ≡ (verdict (f (after k s)).0 max_retries, after (suc k) s)
  unfolding retry
  retry-first zero k s p h a g = absurd (omega arith)
  retry-first (suc n) k s p h a g = loop_verdict (suc n) k (suc n) s h a g

  -- If the first `max_retries + 1` calls all ask for another one, `Retry` makes just these and
  -- answers `RetryError`.
  pub retry-exhausted :
      (max_retries : ℕ) (s : S)
      → 0 < max_retries
      → KeepsAsking (suc max_retries) s
      → retry max_retries f s ≡ (some (still_failing max_retries), after (suc max_retries) s)
  unfolding retry
  retry-exhausted zero s p a = absurd (omega arith)
  retry-exhausted (suc n) s p a = loop_exhausted (suc n) (suc n) s a
