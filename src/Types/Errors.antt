-- ===== src/Types/Errors.antt =====
-- agent/types/errors.go, with the sentinels of agent/tree/errors.go, and errors.As of Go's library
-- on the error types of this program.
pub mod Classify
use graph_agent_dev_kit.Common.{
  ℕ, String, Bool, true, false, Option, none, some, Result, ok, err, nat_eqb, leb, ltb, ◌&&◌, ◌||◌,
  if◌then◌else◌,
}

pub data Sentinel : Type 0 where
  node_not_found node_archived version_conflict invalid_branch_point checkpoint_not_found
        branch_not_found root_immutable node_is_leaf invalid_root :
      Sentinel
  tool_not_found max_iterations stream_canceled provider_failed unsupported_media_type
        resolver_not_found :
      Sentinel

pub data ErrorKind : Type 0 where
  transient permanent : ErrorKind

-- Every error value of the program. `wrapped d e` is fmt.Errorf with %w on `e` and the text `d`;
-- `opaque_error` stands for an error that wraps nothing the program tests for. The error under a
-- ProviderError is never nil. `diverges` and `panics` are no values of the program: they mark a loop
-- that never ends, and a nil dereference or an index out of range.
mutual
  pub data Error : Type 0 where
    sentinel : Sentinel → Error
    wrapped : String → Error → Error
    opaque_error : String → Error
    provider_error : String → String → ErrorKind → ℕ → Error → Error
    fallback_error : Errors → Error
    retry_error : ℕ → Error → Error
    diverges panics : Error

  pub data Errors : Type 0 where
    nil : Errors
    cons : Error → Errors → Errors

-- fmt.Errorf("%w: %s", s, detail)
abbrev pub sentinel_at : Sentinel → String → Error
sentinel_at s detail = wrapped detail (sentinel s)

-- fmt.Errorf("d: %w", err), where there is an error.
abbrev pub in_context : {A : Type 0} → String → Result Error A → Result Error A
in_context d (ok a) = ok a
in_context d (err e) = err (wrapped d e)

-- One error of several: the first that answers.
abbrev or_else {ℓ} : {A : Type ℓ} → Option A → Option A → Option A
or_else none d = d
or_else (some a) d = some a

-- errors.As(err, &pe): the error itself, then what it wraps, depth first.
unfoldable mutual
  pub as_provider_error : Error → Option ErrorKind
  as_provider_error (sentinel s) = none
  as_provider_error (wrapped d e) = as_provider_error e
  as_provider_error (opaque_error d) = none
  as_provider_error (provider_error p m k c e) = some k
  as_provider_error (fallback_error es) = any_provider_error es
  as_provider_error (retry_error n e) = as_provider_error e
  as_provider_error diverges = none
  as_provider_error panics = none

  pub any_provider_error : Errors → Option ErrorKind
  any_provider_error nil = none
  any_provider_error (cons e es) = or_else (as_provider_error e) (any_provider_error es)

-- pe.Kind == ErrorKindTransient, for a provider error that errors.As found.
abbrev pub is_transient_kind : Option ErrorKind → Bool
is_transient_kind (some transient) = true
is_transient_kind _ = false

-- The answer of the first test of IsTransient, and of the second where the first finds nothing.
abbrev by_kind : Option ErrorKind → Bool → Bool
by_kind (some k) rest = is_transient_kind (some k)
by_kind none rest = rest

-- The second test of IsTransient: errors.As(err, &fe), and IsTransient of the last of fe.Errors.
mutual
  unfolding as_provider_error

  pub by_fallback : Error → Bool
  by_fallback (sentinel s) = false
  by_fallback (wrapped d e) = by_fallback e
  by_fallback (opaque_error d) = false
  by_fallback (provider_error p m k c e) = by_fallback e
  by_fallback (fallback_error es) = last_is_transient es
  by_fallback (retry_error n e) = by_fallback e
  by_fallback diverges = false
  by_fallback panics = false

  pub last_is_transient : Errors → Bool
  last_is_transient nil = false
  last_is_transient (cons e nil) = by_kind (as_provider_error e) (by_fallback e)
  last_is_transient (cons e (cons e' es)) = last_is_transient (cons e' es)

-- types.IsTransient
unfoldable pub is_transient : Error → Bool
is_transient e = by_kind (as_provider_error e) (by_fallback e)

-- types.ClassifyHTTPStatus
unfoldable pub classify_http_status : ℕ → ErrorKind
classify_http_status code =
    if nat_eqb code 429
    then transient
    else if nat_eqb code 408
    then transient
    else if leb 500 code && ltb code 600
    then transient
    else permanent

-- The two marks.
abbrev pub is_panic : Error → Bool
is_panic panics = true
is_panic _ = false

abbrev pub is_endless : Error → Bool
is_endless diverges = true
is_endless _ = false
