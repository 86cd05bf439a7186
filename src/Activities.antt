-- ===== src/Activities.antt =====
-- internal/activity/activities.go
pub mod Requesting
pub mod Processing
use orchestrix_api.Common.{
  ℕ, ◌*◌, ◌==◌, String, ◌+++◌, Bool, true, false, Option, none, some, List, [], ◌∷◌, leb, ltb, ◌&&◌,
  ℤ, pos, negsuc, is_empty, str_eq, lookup, insert, if◌then◌else◌, is_some, ltb_ℤ, pos_part,
}
use orchestrix_api.Fault.{Error, Result, ok, err}
use orchestrix_api.Engine.Definition.{Json, HttpConfig, LogConfig}

pub record ValidateResult : Type 0 where
  pub valid : Bool
  pub message : String

pub record ProcessResult : Type 0 where
  pub success : Bool
  pub message : String

pub record HttpInput : Type 0 where
  pub url : String
  pub method : String
  pub headers : List (String × String)
  pub body : Option Json
  pub timeout : ℤ
  pub success_codes : List ℤ

pub record HttpResult : Type 0 where
  pub status_code : ℕ
  pub body : String
  pub headers : List (String × String)
  pub success : Bool
  pub error : String

pub record WebhookResult : Type 0 where
  pub status_code : ℕ
  pub success : Bool
  pub error : String

-- An http.Request and an http.Response, as far as the activities use them.
pub record Request : Type 0 where
  pub method : String
  pub url : String
  pub body : Option String
  pub headers : List (String × String)

pub record Response : Type 0 where
  pub status_code : ℕ
  pub body : String
  pub headers : List (String × List String)

-- What the activities use of Go's library: json.Marshal, the checks of http.NewRequest (the error, or
-- none), the canonical form of a header's key, a request made with a timeout in seconds, and the text
-- of an error.
pub record Web : Type 0 where
  pub marshal : Json → Result String
  pub check_request : String → String → Option Error
  pub canonical : String → String
  pub send : ℤ → Request → Result Response
  pub error_text : Error → String

unfoldable pub validate : String → String → ValidateResult
validate id name =
    if str_eq id ""
    then record { valid = false; message = "ID is required" }
    else if str_eq name ""
    then record { valid = false; message = "Name is required" }
    else record { valid = true; message = "Validation passed" }

unfoldable pub process : String → ProcessResult
process id = record { success = true; message = "Successfully processed " +++ id }

-- Notify, Delay and Log return this for their one field, whatever their input.
unfoldable pub acknowledged : Bool
acknowledged = true

-- The defaults at the start of HTTP.
unfoldable pub complete_input : HttpInput → HttpInput
complete_input i = record i {
  method = if str_eq i.method "" then "GET" else i.method;
  success_codes =
      if is_empty i.success_codes
      then pos 200 ∷ pos 201 ∷ pos 202 ∷ pos 204 ∷ []
      else i.success_codes;
}

unfoldable pub failure : String → HttpResult
failure message = record {
  status_code = 0;
  body = "";
  headers = [];
  success = false;
  error = message;
}

-- The loop over the headers of the response: the first value of each key that has one.
unfoldable pub first_values : List (String × List String) → List (String × String)
first_values [] = []
first_values ((k, []) ∷ hs) = first_values hs
first_values ((k, v ∷ vs) ∷ hs) = (k, v) ∷ first_values hs

abbrev pub same_code : ℕ → ℤ → Bool
same_code n (pos m) = n == m
same_code n (negsuc m) = false

-- The loop over the codes.
unfoldable pub is_success : ℕ → List ℤ → Bool
is_success n [] = false
is_success n (c ∷ cs) = if same_code n c then true else is_success n cs

module _ (w : Web) where
  -- The body of the request: none for no body, or an error of json.Marshal.
  unfoldable pub marshal_body : Option Json → Result (Option String)
  marshal_body none = ok none
  marshal_body (some v) = elim (w.marshal v) [ ok s ↦ ok (some s) | err e ↦ err e ]

  -- The loop over the headers of the input.
  unfoldable pub set_headers :
      List (String × String) → List (String × String) → List (String × String)
  set_headers [] hs = hs
  set_headers ((k, v) ∷ rest) hs = set_headers rest (insert (w.canonical k) v hs)

  abbrev pub content_type : Bool → List (String × String) → List (String × String)
  content_type has_body hs = elim (lookup "Content-Type" hs) [
    | none ↦ if has_body then insert "Content-Type" "application/json" hs else hs
    | some v ↦ if str_eq v "" && has_body then insert "Content-Type" "application/json" hs else hs
  ]

  unfoldable pub new_request : HttpInput → Option String → Request
  unfolding set_headers
  new_request i body = record {
    method = i.method;
    url = i.url;
    body = body;
    headers = content_type (is_some i.body) (set_headers i.headers []);
  }

  -- The client of the activities has a timeout of 30 seconds.
  abbrev pub timeout_of : HttpInput → ℤ
  timeout_of i = if ltb_ℤ (pos 0) i.timeout then i.timeout else pos 30

  unfoldable pub answer : HttpInput → Result Response → HttpResult
  unfolding failure first_values is_success
  answer i (err e) = failure (w.error_text e)
  answer i (ok r) = record {
    status_code = r.status_code;
    body = r.body;
    headers = first_values r.headers;
    success = is_success r.status_code i.success_codes;
    error = "";
  }

  -- From http.NewRequestWithContext on, with what its checks say.
  abbrev pub checked : HttpInput → Option String → Option Error → HttpResult
  unfolding answer failure new_request
  checked i body (some e) = failure (w.error_text e)
  checked i body none = answer i (w.send (timeout_of i) (new_request i body))

  unfoldable pub request_with : HttpInput → Result (Option String) → HttpResult
  unfolding failure
  request_with i (err e) = failure (w.error_text e)
  request_with i (ok body) = checked i body (w.check_request i.method i.url)

  -- HTTP with the method and the codes filled in. It never returns an error.
  unfoldable pub http_completed : HttpInput → HttpResult
  unfolding request_with marshal_body
  http_completed i = request_with i (marshal_body i.body)

  unfoldable pub http : HttpInput → HttpResult
  unfolding http_completed complete_input
  http i = http_completed (complete_input i)

  abbrev pub webhook_answer : Result Response → WebhookResult
  webhook_answer (err e) = record { status_code = 0; success = false; error = w.error_text e }
  webhook_answer (ok r) = record {
    status_code = r.status_code;
    success = leb 200 r.status_code && ltb r.status_code 300;
    error = "";
  }

  abbrev pub payload_of : Result String → String
  payload_of (ok s) = s
  payload_of (err e) = ""

  -- The error of json.Marshal is dropped.
  unfoldable pub webhook : String → Json → WebhookResult
  webhook url payload = elim (w.check_request "POST" url) [
    | some e ↦ record { status_code = 0; success = false; error = w.error_text e }
    | none ↦ webhook_answer (
        w.send (pos 30) (record {
          method = "POST";
          url = url;
          body = some (payload_of (w.marshal payload));
          headers = ("Content-Type", "application/json") ∷ [];
        }))
  ]
