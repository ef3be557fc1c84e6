-- ===== src/Types/Errors/Classify.antt =====
-- What types.IsTransient answers on wrapped and combined errors.
use graph_agent_dev_kit.Common.{◌≡◌, refl, none, some, false, arith}
use graph_agent_dev_kit.Types.Errors.{
  Error, Errors, ErrorKind, sentinel, wrapped, opaque_error, provider_error, fallback_error,
  retry_error, diverges, panics, nil, cons, as_provider_error, any_provider_error, by_fallback,
  last_is_transient, is_transient, is_transient_kind,
}

-- Where errors.As finds no provider error, the second test finds nothing transient.
mutual
  unfolding as_provider_error by_fallback

  by_fallback-none : (e : Error) → as_provider_error e ≡ none → by_fallback e ≡ false
  by_fallback-none (sentinel s) h = refl
  by_fallback-none (wrapped d e) h = by_fallback-none e h
  by_fallback-none (opaque_error d) h = refl
  by_fallback-none (provider_error p m k c e) h = ground arith
  by_fallback-none (fallback_error es) h = last_is_transient-none es h
  by_fallback-none (retry_error n e) h = by_fallback-none e h
  by_fallback-none diverges h = refl
  by_fallback-none panics h = refl

  last_is_transient-none :
      (es : Errors) → any_provider_error es ≡ none → last_is_transient es ≡ false
  last_is_transient-none nil h = refl
  last_is_transient-none (cons e nil) h = ground (arith, by_fallback-none e)
  last_is_transient-none (cons e (cons e' es)) h =
      last_is_transient-none (cons e' es) (ground arith)

-- IsTransient answers whether the first provider error in an error, depth first, is transient,
-- and false if there is none.
pub is_transient-eq-first : (e : Error) → is_transient e ≡ is_transient_kind (as_provider_error e)
unfolding is_transient
is_transient-eq-first e = ground (arith, by_fallback-none e)

-- Of a FallbackError whose first error holds a provider error, the kind of that one decides
-- IsTransient, and not the last error.
pub is_transient-fallback_first :
    (e : Error) (es : Errors) (k : ErrorKind)
    → as_provider_error e ≡ some k
    → is_transient (fallback_error (cons e es)) ≡ is_transient_kind (some k)
unfolding as_provider_error
is_transient-fallback_first e es k h =
    ground (arith, is_transient-eq-first (fallback_error (cons e es)))
