-- ===== src/Activities/Requesting.antt =====
-- The HTTP activity: when it reports a success.
use orchestrix_api.Common.{
  ℕ, String, ◌≡◌, true, false, Option, none, some, List, ◌∷◌, ◌↔◌, ℤ, pos, ◌⊎◌,
}
use orchestrix_api.Fault.{Error, ok, err}
use orchestrix_api.Activities.{
  Web, HttpInput, HttpResult, Response, new_request, timeout_of, marshal_body,
}

-- A status is among the codes.
pub data IsOneOf (n : ℕ) : List ℤ → Type 0 where
  here : {c : ℤ} {cs : List ℤ} → pos n ≡ c → IsOneOf n (c ∷ cs)
  there : {c : ℤ} {cs : List ℤ} → IsOneOf n cs → IsOneOf n (c ∷ cs)

-- How the activity ends, for an input with its defaults: with a text for the error that came before
-- the request, or instead of a response, or with the response.
pub data Reported (w : Web) (i : HttpInput) (out : HttpResult) : Type 0 where
  failed :
      (e : Error)
      → (marshal_body w i.body ≡ err e)
        ⊎ (w.check_request i.method i.url ≡ some e)
        ⊎ ((body : Option String) × (w.send (timeout_of w i) (new_request w i body) ≡ err e))
      → out.success ≡ false
      → out.error ≡ w.error_text e
      → Reported w i out
  responded :
      (body : Option String) (r : Response)
      → marshal_body w i.body ≡ ok body
      → w.check_request i.method i.url ≡ none
      → w.send (timeout_of w i) (new_request w i body) ≡ ok r
      → out.status_code ≡ r.status_code
      → out.body ≡ r.body
      → (out.success ≡ true) ↔ IsOneOf r.status_code i.success_codes
      → Reported w i out
