-- ===== src/Provider/Retry.antt =====
-- agent/provider/retry/retry.go. The wrapped call is `call i` at its i-th attempt. The delay before
-- the next one is computed with floats: `power i` stands for float64(BaseDelay) * Multiplier^i.
pub mod Attempts
use graph_agent_dev_kit.Common.{
  ℕ, zero, suc, ◌+◌, ◌≤◌, ◌<◌, Bool, true, false, Option, none, some, leb, Result, ok, err, ◌≡◌,
  refl, arith, if◌then◌else◌,
}
use graph_agent_dev_kit.Common.Int.{ℤ, pos, negsuc}
use graph_agent_dev_kit.Types.Errors.{Error, retry_error, is_transient}

-- What a retry loop meets: whether the context has ended after the i-th attempt, and the context's
-- error if it ends during a delay.
pub record RetryEnv (A : Type 0) : Type 0 where
  pub call : ℕ → Result Error A
  pub ended : ℕ → Bool
  pub power : ℕ → ℕ
  pub wait : ℕ → ℕ → Option Error

pub record Config : Type 0 where
  pub max_attempts : ℕ
  pub max_delay : ℕ
  pub should_retry : Option (Error → Bool)

-- The default of New for the number of attempts.
unfoldable pub attempts_or_default : ℤ → ℕ
attempts_or_default (pos (suc n)) = suc n
attempts_or_default _ = 3

-- Transient errors, where the configuration names no test.
unfoldable pub retries : Config → Error → Bool
retries c e = elim c.should_retry [ none ↦ is_transient e | some test ↦ test e ]

-- delay > MaxDelay
unfoldable pub delay : Config → ℕ → ℕ
delay c d = if leb d c.max_delay then d else c.max_delay

module _ {A : Type 0} (c : Config) (env : RetryEnv A) where
  -- The loop with `left` attempts to go, the next one the `attempt`-th, and the last error.
  unfoldable pub attempts : ℕ → ℕ → Error → Result Error A
  unfolding retries delay
  attempts zero attempt last = err (retry_error c.max_attempts last)
  attempts (suc left) attempt last = elim (env.call attempt) [
    | ok a ↦ ok a
    | err e ↦
        let go_on = attempts left (suc attempt) e in
        let after_delay : Result Error A = elim (env.wait attempt (delay c (env.power attempt))) [
          | none ↦ go_on
          | some ended ↦ err ended
        ] in
        if env.ended attempt
        then err e
        else if retries c e
        then (if leb 1 left then after_delay else go_on)
        else err e
  ]

  -- retryLoop
  unfoldable pub retry_loop : Error → Result Error A
  unfolding attempts
  retry_loop no_error = attempts c.max_attempts 0 no_error
