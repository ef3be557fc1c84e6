-- ===== src/Provider/Fallback/Order.antt =====
-- Which provider answers, and which errors a failure reports.
use mathlib.Core.List.{append-nil, append_assoc}
use graph_agent_dev_kit.Common.{
  ℕ, suc, Bool, true, false, Option, List, [], ◌∷◌, ◌++◌, map, Result, ok, err, ◌≡◌, refl, sym, ap,
  ◌∙◌,
}
use graph_agent_dev_kit.Types.Errors.{Error, fallback_error}
use graph_agent_dev_kit.Provider.Fallback.{to_errors, falls_back, try_each, chat_stream}

module _ {A : Type 0} (fallback_on : Option (Error → Bool)) (ended : ℕ → Bool)
    (alive : (i : ℕ) → ended i ≡ false) where
  -- Past errors that are fallen back on, the loop goes on with them noted in order.
  passed_over :
      (es : List Error) (i : ℕ) (errs : List Error) (answers : List (Result Error A))
      → ((e : Error) → falls_back fallback_on e ≡ true)
      → (j : ℕ) × (try_each fallback_on ended i errs (map err es ++ answers)
          ≡ try_each fallback_on ended j (errs ++ es) answers)
  unfolding try_each
  passed_over [] i errs answers f = (i, rw append-nil)
  passed_over (e ∷ es) i errs answers f =
      let (j, rest) = passed_over es (suc i) (errs ++ e ∷ []) answers f in
      (
        j,
        rw (alive i, f e)
            (rest
              ∙ ap (λ l. try_each fallback_on ended j l answers) (append_assoc errs (e ∷ []) es)),
      )

  -- When every error is fallen back on and the context lives, the first provider that succeeds
  -- gives the answer.
  pub chat_stream-first :
      (es : List Error) (a : A) (answers : List (Result Error A))
      → ((e : Error) → falls_back fallback_on e ≡ true)
      → chat_stream fallback_on ended (map err es ++ ok a ∷ answers) ≡ ok a
  unfolding chat_stream
  chat_stream-first es a answers f =
      let (j, e) = passed_over es 0 [] (ok a ∷ answers) f in e ∙ (unfold try_each in refl)

  -- When every error is fallen back on, the context lives and all providers fail, the result is
  -- a FallbackError with the errors of all of them in their order.
  pub chat_stream-none :
      (es : List Error)
      → ((e : Error) → falls_back fallback_on e ≡ true)
      → chat_stream {A = A} fallback_on ended (map err es) ≡ err (fallback_error (to_errors es))
  unfolding chat_stream
  chat_stream-none es f =
      let (j, e) = passed_over es 0 [] [] f in
      ap (try_each fallback_on ended 0 []) (sym (append-nil (map err es)))
      ∙ e
      ∙ (unfold try_each in refl)
