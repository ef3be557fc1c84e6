-- ===== src/Examples/Providers.antt =====
-- Providers that fail, for agent/provider/retry and agent/provider/fallback.
use graph_agent_dev_kit.Common.{
  ℕ, zero, suc, ◌<◌, Bool, true, false, none, some, Option, [], ◌∷◌, ◌++◌, map, ok, err, Result,
  ◌≡◌, refl, arith,
}
use graph_agent_dev_kit.Types.Errors.{Error, provider_error, opaque_error, transient, retry_error}
use graph_agent_dev_kit.Provider.Retry.{RetryEnv, Config, retries, delay, attempts, retry_loop}
use graph_agent_dev_kit.Provider.Retry.Attempts.{Fails, retry_loop-success, retry_loop-exhausted}
use graph_agent_dev_kit.Provider.Fallback.{falls_back, chat_stream}
use graph_agent_dev_kit.Provider.Fallback.Order.{chat_stream-first}

abbrev limited : Error
limited = provider_error "a" "m" transient 429 (opaque_error "too many requests")

abbrev always : Option (Error → Bool)
always = some (λ e. true)

abbrev thrice : Config
thrice = record { max_attempts = 3; max_delay = 10; should_retry = always }

-- The third call is answered.
abbrev third : ℕ → Result Error ℕ
third (suc (suc n)) = ok 7
third _ = err limited

abbrev recovering : RetryEnv ℕ
recovering = record { call = third; ended = λ i. false; power = λ i. i; wait = λ i d. none }

abbrev failing : RetryEnv ℕ
failing = record recovering { call = λ i. err limited }

early_failures : (j : ℕ) → j < 2 → Fails thrice recovering j
unfolding retries
early_failures zero below = record {
  error = limited;
  failed = refl;
  retried = refl;
  alive = refl;
  waited = refl;
}
early_failures (suc zero) below = record {
  error = limited;
  failed = refl;
  retried = refl;
  alive = refl;
  waited = refl;
}
early_failures (suc (suc j)) below = absurd (omega arith)

all_failures : (j : ℕ) → Fails thrice failing j
unfolding retries
all_failures j = record {
  error = limited;
  failed = refl;
  retried = refl;
  alive = refl;
  waited = refl;
}

retry_loop-success_example : retry_loop thrice recovering (opaque_error "") ≡ ok 7
retry_loop-success_example =
    retry_loop-success thrice recovering 2 (opaque_error "") (omega arith) refl early_failures

third_answer : retry_loop thrice recovering (opaque_error "") ≡ ok 7
unfolding retry_loop attempts retries delay
third_answer = refl

retry_loop-exhausted_example :
    retry_loop thrice failing (opaque_error "") ≡ err (retry_error 3 limited)
unfolding all_failures
retry_loop-exhausted_example =
    retry_loop-exhausted thrice failing 2 (opaque_error "") all_failures refl

abbrev lasting : ℕ → Bool
lasting i = false

always_on : (e : Error) → falls_back none e ≡ true
unfolding falls_back
always_on e = refl

chat_stream-first_example :
    chat_stream {A = ℕ} none lasting (map err (limited ∷ []) ++ ok 7 ∷ []) ≡ ok 7
chat_stream-first_example = chat_stream-first none lasting (λ i. refl) (limited ∷ []) 7 [] always_on
