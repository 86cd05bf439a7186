-- ===== src/Apperror/Mapping.antt =====
-- Which HTTP response an error becomes.
use orchestrix_api.Common.{
  String, ◌≡◌, ◌≤◌, refl, ap, Bool, true, false, Option, none, some, List, [], ◌∷◌, ◌⊎◌, inl, inr,
  arith,
}
use orchestrix_api.Fault.{internal, Error, sentinel, app, wrapped, other, AppError, app_error}
use orchestrix_api.Domain.Errors as D
use orchestrix_api.Domain.Errors.{DomainError}
use orchestrix_api.Apperror.Constructors.{code_to_http_status, internal_of}
use orchestrix_api.Apperror.{
  get_app_error, map_sentinel, map_domain_error, to_app_error, found_or_mapped, Reply, error_level,
  debug_level, reply, handle,
}

-- The status of an AppError is the one of its code.
abbrev pub IsStandard : AppError → Type 0
IsStandard (app_error code message details status c) = status ≡ code_to_http_status code

map_sentinel-IsStandard : (d : DomainError) (a : AppError) → map_sentinel d ≡ some a → IsStandard a
unfolding map_sentinel code_to_http_status
map_sentinel-IsStandard d a q = ground arith

map_domain_error-IsStandard : (e : Error) → IsStandard (map_domain_error e)
unfolding map_domain_error code_to_http_status
map_domain_error-IsStandard (sentinel d) =
    elim (map_sentinel d)
        as (λ m.
          m ≡ map_sentinel d
          → IsStandard (elim m [ some a ↦ a | none ↦ internal_of (sentinel d) ])) [
            | some a ↦ λ q. map_sentinel-IsStandard d a (cc)
            | none ↦ λ q. refl
          ]
      refl
map_domain_error-IsStandard (app a) = refl
map_domain_error-IsStandard (wrapped prefix e) = refl
map_domain_error-IsStandard (other message) = refl

found_or_mapped-IsStandard :
    (o : Option AppError) (e : Error)
    → ((a : AppError) → o ≡ some a → IsStandard a)
    → IsStandard (found_or_mapped o e)
found_or_mapped-IsStandard none e given = map_domain_error-IsStandard e
found_or_mapped-IsStandard (some a) e given = given a refl

-- The AppError that a response is made from has the status of its code, where the AppErrors that the
-- error wraps have: no mapping pairs a code with another code's status.
pub to_app_error-IsStandard :
    (e : Error)
    → ((a : AppError) → get_app_error e ≡ some a → IsStandard a)
    → IsStandard (to_app_error e)
unfolding to_app_error
to_app_error-IsStandard e given = found_or_mapped-IsStandard (get_app_error e) e given

-- The error that fmt.Errorf makes of another by one prefix after another, the outermost first.
abbrev pub wrap_all : List String → Error → Error
wrap_all [] e = e
wrap_all (p ∷ ps) e = wrapped p (wrap_all ps e)

get_app_error-wrap_all :
    (ps : List String) (e : Error) → get_app_error (wrap_all ps e) ≡ get_app_error e
unfolding get_app_error
get_app_error-wrap_all [] e = refl
get_app_error-wrap_all (p ∷ ps) e = get_app_error-wrap_all ps e

-- The response to an error that the handler knows nothing of.
abbrev pub hidden : Reply
hidden = record {
  logged = error_level;
  status = 500;
  code = internal;
  message = "an internal error occurred";
  details = none;
}

-- Wrapping does not change the response to an AppError, while a domain error that is wrapped even
-- once gets the response of an unknown error, whatever its own would have been.
pub handle-wrap_all :
    (ps : List String) (p : String) (a : AppError) (d : DomainError)
    → (handle (wrap_all ps (app a)) ≡ handle (app a))
      × (handle (wrap_all (p ∷ ps) (sentinel d)) ≡ hidden)
unfolding handle to_app_error get_app_error map_domain_error internal_of reply
handle-wrap_all ps p a d = (
  ap (λ o. reply (found_or_mapped o (wrap_all ps (app a)))) (get_app_error-wrap_all ps (app a)),
  ap (λ o. reply (found_or_mapped o (wrap_all (p ∷ ps) (sentinel d))))
      (get_app_error-wrap_all ps (sentinel d)),
)

-- The errors of the metrics, and the one for internal errors.
abbrev pub is_unlisted : DomainError → Bool
is_unlisted D.metric_not_found = true
is_unlisted D.invalid_metric_query = true
is_unlisted D.invalid_metric_name = true
is_unlisted D.invalid_time_range = true
is_unlisted D.metric_definition_not_found = true
is_unlisted D.metric_definition_exists = true
is_unlisted D.invalid_metric_type = true
is_unlisted D.invalid_aggregation_type = true
is_unlisted D.batch_too_large = true
is_unlisted D.internal = true
is_unlisted _ = false

-- A domain error is answered with a client error's status, and logged as one, unless it is one of
-- the errors of the metrics or the internal error: these get the response of an unknown error.
pub handle-sentinel :
    (d : DomainError)
    → ((is_unlisted d ≡ true) × (handle (sentinel d) ≡ hidden))
      ⊎ ((is_unlisted d ≡ false)
          × (400 ≤ (handle (sentinel d)).status)
          × ((handle (sentinel d)).status ≤ 429)
          × ((handle (sentinel d)).logged ≡ debug_level))
unfolding handle to_app_error get_app_error map_domain_error internal_of map_sentinel reply
handle-sentinel d = ground arith

-- What is answered to an error without an AppError in its chain says nothing of the error where the
-- status is a server error's: it is the same for all of them.
pub handle_hides :
    (e : Error) → get_app_error e ≡ none → 500 ≤ (handle e).status → handle e ≡ hidden
unfolding handle to_app_error get_app_error map_domain_error internal_of reply
handle_hides (sentinel d) q le = elim (handle-sentinel d) [
  | inl (u, h) ↦ h
  | inr (u, low, high, l) ↦ ground arith
]
handle_hides (app a) q le = cc
handle_hides (wrapped prefix e) q le = ap (λ o. reply (found_or_mapped o (wrapped prefix e))) q
handle_hides (other message) q le = refl
