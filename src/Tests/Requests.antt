-- ===== src/Tests/Requests.antt =====
-- The theorem on an HTTP activity, at one request.
use orchestrix_api.Common.{none, [], ◌∷◌, pos}
use orchestrix_api.Fault.{ok}
use orchestrix_api.Activities.{Web, HttpInput}

abbrev a_web : Web
a_web = record {
  marshal = λ v. ok "{}";
  check_request = λ method url. none;
  canonical = λ k. k;
  send = λ timeout r.
      ok (record { status_code = 503; body = "busy"; headers = ("Retry-After", "5" ∷ []) ∷ [] });
  error_text = λ e. "failed";
}

abbrev a_request : HttpInput
a_request = record {
  url = "http://example";
  method = "";
  headers = [];
  body = none;
  timeout = pos 5;
  success_codes = pos 503 ∷ [];
}
