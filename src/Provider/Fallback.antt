-- ===== src/Provider/Fallback.antt =====
-- agent/provider/fallback/fallback.go. A provider that is tried is the answer that it gives; whether
-- the context has ended after the i-th of them is `ended i`.
pub mod Order
use graph_agent_dev_kit.Common.{
  ℕ, zero, suc, Bool, true, false, Option, none, some, List, [], ◌∷◌, ◌++◌, Result, ok, err, ◌≡◌,
  refl, arith, if◌then◌else◌, not, ◌||◌,
}
use graph_agent_dev_kit.Types.Errors.{Error, Errors, nil, cons, fallback_error}

unfoldable pub to_errors : List Error → Errors
to_errors [] = nil
to_errors (e ∷ es) = cons e (to_errors es)

-- Every error, where no test is set.
unfoldable pub falls_back : Option (Error → Bool) → Error → Bool
falls_back none e = true
falls_back (some test) e = test e

module _ {A : Type 0} (fallback_on : Option (Error → Bool)) (ended : ℕ → Bool) where
  -- The loop over the providers from the i-th on, with the errors so far.
  unfoldable pub try_each : ℕ → List Error → List (Result Error A) → Result Error A
  unfolding falls_back to_errors
  try_each i errs [] = err (fallback_error (to_errors errs))
  try_each i errs (ok a ∷ answers) = ok a
  try_each i errs (err e ∷ answers) =
      let rest = try_each (suc i) (errs ++ e ∷ []) answers in
      if ended i || not (falls_back fallback_on e)
      then err (fallback_error (to_errors (errs ++ e ∷ [])))
      else rest

  -- ChatStream
  unfoldable pub chat_stream : List (Result Error A) → Result Error A
  unfolding try_each
  chat_stream answers = try_each 0 [] answers

-- A provider's two entry points: ChatStreamWithSchema is there only if it implements it.
pub record Entry (A : Type 0) : Type 0 where
  pub chat : Result Error A
  pub with_schema : Option (Result Error A)

unfoldable pub preferred : {A : Type 0} → Entry A → Result Error A
preferred p = elim p.with_schema [ none ↦ p.chat | some r ↦ r ]
