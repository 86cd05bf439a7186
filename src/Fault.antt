-- ===== src/Fault.antt =====
-- Go's `error` values, and the result of a call that may return one.
--
-- An error is a sentinel of internal/core/domain/errors.go, an `*AppError` of pkg/apperror/error.go,
-- an error wrapped by `fmt.Errorf("...: %w", err)`, or any other error, known by its text.
use orchestrix_api.Common.{ℕ, String, Bool, false, List, Option, ◌≡◌, refl, ◌⊎◌, inl, inr}
use orchestrix_api.Domain.Errors.{DomainError}

-- pkg/apperror/error.go, type ErrorCode
pub data ErrorCode : Type 0 where
  validation not_found unauthorized forbidden conflict bad_request too_many_requests : ErrorCode
  internal unavailable timeout : ErrorCode

-- A value of the `Details` map: a text, or the map of `ValidationWithFields`.
pub data Detail : Type 0 where
  text : String → Detail
  fields : List (String × String) → Detail

-- `Details`; none is the nil map
abbrev pub Details : Type 0
Details = Option (List (String × Detail))

mutual
  pub data Error : Type 0 where
    sentinel : DomainError → Error
    app : AppError → Error
    wrapped : String → Error → Error
    other : String → Error

  -- pkg/apperror/error.go, type AppError: code, message, details, HTTP status and cause
  pub data AppError : Type 0 where
    app_error : ErrorCode → String → Details → ℕ → Cause → AppError

  -- The field `Err error`, which may be nil.
  pub data Cause : Type 0 where
    no_cause : Cause
    cause : Error → Cause

pub data Result {ℓ} (A : Type ℓ) : Type ℓ where
  ok : A → Result A
  err : Error → Result A

abbrev pub is_ok {ℓ} : {A : Type ℓ} → Result A → Option A
is_ok (ok a) = Option.some a
is_ok (err e) = Option.none

-- To split on a computed result and keep the equation.
pub Result-cases {ℓ} :
    {A : Type ℓ} (r : Result A) → ((a : A) × (r ≡ ok a)) ⊎ ((e : Error) × (r ≡ err e))
Result-cases (ok a) = inl (a, refl)
Result-cases (err e) = inr (e, refl)

-- `errors.Is(err, target)` for a sentinel. The `Is` method of an AppError answers false to it, and
-- its cause is looked at next.
unfoldable mutual
  pub is_error : (DomainError → Bool) → Error → Bool
  is_error target (sentinel e) = target e
  is_error target (app (app_error code message details status c)) = is_cause target c
  is_error target (wrapped prefix e) = is_error target e
  is_error target (other message) = false

  pub is_cause : (DomainError → Bool) → Cause → Bool
  is_cause target no_cause = false
  is_cause target (cause e) = is_error target e
