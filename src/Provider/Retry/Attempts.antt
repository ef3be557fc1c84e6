-- ===== src/Provider/Retry/Attempts.antt =====
-- Which answer the retry loop gives.
use graph_agent_dev_kit.Common.{
  ℕ, zero, suc, ◌+◌, ◌≤◌, ◌<◌, true, false, none, nat_eqb, ok, err, Result-cases, Bool-cases, inl,
  inr, ◌≡◌, sym, ap, ◌∙◌, subst, arith, eq_of_nat_test, ne_of_nat_test,
}
use graph_agent_dev_kit.Types.Errors.{Error, retry_error}
use graph_agent_dev_kit.Provider.Retry.{RetryEnv, Config, retries, delay, attempts, retry_loop}

module _ {A : Type 0} (c : Config) (env : RetryEnv A) where
  -- The i-th attempt fails with an error that is retried, and the context outlives the delay.
  pub record Fails (i : ℕ) : Type 0 where
    pub error : Error
    pub failed : env.call i ≡ err error
    pub retried : retries c error ≡ true
    pub alive : env.ended i ≡ false
    pub waited : env.wait i (delay c (env.power i)) ≡ none

  one_more :
      (left i : ℕ) (last : Error) (f : Fails i)
      → attempts c env (suc left) i last ≡ attempts c env left (suc i) f.error
  unfolding attempts
  one_more left i last f = rw (f.failed, attempts, f.alive, f.retried, f.waited) (ground arith)

  first_answer :
      (left i : ℕ) (last : Error) {a : A}
      → env.call i ≡ ok a
      → attempts c env (suc left) i last ≡ ok a
  unfolding attempts
  first_answer left i last h = rw (h, attempts)

  later_answer :
      (left i : ℕ) (last e : Error) {a : A}
      → env.call i ≡ err e
      → attempts c env (suc left) i last ≡ ok a
      → attempts c env left (suc i) e ≡ ok a
  unfolding attempts
  later_answer left i last e failed h = ground (arith, failed)

  attempts-success :
      (left i k : ℕ) (last : Error) {a : A}
      → i ≤ k
      → k < i + left
      → env.call k ≡ ok a
      → ((j : ℕ) → i ≤ j → j < k → Fails j)
      → attempts c env left i last ≡ ok a
  attempts-success zero i k last le lt won f = absurd (omega arith)
  attempts-success (suc left) i k last {a} le lt won f = elim (Bool-cases (nat_eqb i k)) [
    | inl here ↦
        first_answer left i last
          (subst (λ j. env.call j ≡ ok a) (sym (eq_of_nat_test i k here)) won)
    | inr more ↦
        let other = ne_of_nat_test i k more in
        one_more left i last (f i (omega arith) (omega arith))
        ∙ attempts-success left (suc i) k _ (omega arith) (omega arith) won
            (λ j p q. f j (omega arith) q)
  ]

  attempts-failure :
      (left i : ℕ) (last : Error) (f : (j : ℕ) → Fails j)
      → attempts c env (suc left) i last ≡ err (retry_error c.max_attempts (f (i + left)).error)
  attempts-failure zero i last f =
      one_more zero i last (f i)
      ∙ unfold attempts in ap (λ j. err (retry_error c.max_attempts (f j).error)) (omega arith)
  attempts-failure (suc left) i last f =
      one_more (suc left) i last (f i)
      ∙ attempts-failure left (suc i) (f i).error f
      ∙ ap (λ j. err (retry_error c.max_attempts (f j).error)) (omega arith)

  attempts-ok :
      (left i : ℕ) (last : Error) {a : A}
      → attempts c env left i last ≡ ok a
      → (k : ℕ) × (k < i + left) × (env.call k ≡ ok a)
  unfolding attempts
  attempts-ok zero i last h = cc
  attempts-ok (suc left) i last {a} h = elim (Result-cases (env.call i)) [
    | inl (b, e) ↦ (i, omega arith, e ∙ sym (first_answer left i last e) ∙ h)
    | inr (x, e) ↦
        let (k, below, won) = attempts-ok left (suc i) x (later_answer left i last x e h) in
        (k, omega arith, won)
  ]

  -- The retry loop returns the answer of an attempt within the configured number when all
  -- attempts before it fail with errors that are retried and the context outlives them and their
  -- delays.
  pub retry_loop-success :
      (k : ℕ) (no_error : Error) {a : A}
      → k < c.max_attempts
      → env.call k ≡ ok a
      → ((j : ℕ) → j < k → Fails j)
      → retry_loop c env no_error ≡ ok a
  unfolding retry_loop
  retry_loop-success k no_error lt won f =
      attempts-success c.max_attempts 0 k no_error (omega arith) (omega arith) won (λ j p q. f j q)

  -- An answer of the retry loop is that of one of its attempts, whose number is below the
  -- configured one.
  pub retry_loop-ok :
      (no_error : Error) {a : A}
      → retry_loop c env no_error ≡ ok a
      → (k : ℕ) × (k < c.max_attempts) × (env.call k ≡ ok a)
  unfolding retry_loop
  retry_loop-ok no_error h =
      let (k, below, won) = attempts-ok c.max_attempts 0 no_error h in (k, omega arith, won)

  -- With at least one attempt configured, when every attempt fails with an error that is retried
  -- and the context lives, the retry loop returns a RetryError with the number of attempts and
  -- the error of the last one.
  pub retry_loop-exhausted :
      (m : ℕ) (no_error : Error) (f : (j : ℕ) → Fails j)
      → c.max_attempts ≡ suc m
      → retry_loop c env no_error ≡ err (retry_error (suc m) (f m).error)
  unfolding retry_loop
  retry_loop-exhausted m no_error f e =
      ap (λ n. attempts c env n 0 no_error) e
      ∙ attempts-failure m 0 no_error f
      ∙ ap (λ n. err (retry_error n (f (0 + m)).error)) e
      ∙ ap (λ j. err (retry_error (suc m) (f j).error)) (omega arith)
