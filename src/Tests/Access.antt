-- ===== src/Tests/Access.antt =====
-- The theorems on who gets in, and on the handlers and the validation behind.
use orchestrix_api.Common.{String, ◌≡◌, ◌↔◌, refl, true, none, some, List, [], ◌∷◌, pos, ◌≤ℤ◌}
use orchestrix_api.Fault.{ok}
use orchestrix_api.Auth.{
  Config, Request, Authority, KeycloakClaims, served, handler, require_role, behind,
}
use orchestrix_api.Auth.Admitting.{Admitted, handler-Admitted, IsAllowed, require_role-IsAllowed}
use orchestrix_api.Validation.{
  Library, Validator, empty, add_error, enum, range, min_length, max_length, cron_expression,
}
use orchestrix_api.Validation.Accepting.{IsIn, IsCron, accepts_iff}

abbrev some_claims : KeycloakClaims
some_claims = record {
  subject = "u1";
  email = "u1@example";
  name = "U";
  tenant_id = "t1";
  realm_roles = "viewer" ∷ "admin" ∷ [];
}

abbrev a_config : Config
a_config = record {
  keycloak_url = "http://keycloak";
  realm = "orchestrix";
  client_id = "api";
  skip_paths = (b'/' ∷ b'h' ∷ []) ∷ [];
}

abbrev an_authority : Authority
an_authority = record {
  keys = λ url. none;
  parse_with_claims = λ issuer token. ok (some_claims, true);
  parse_uuid = λ s. (1, none);
  set_config = λ id. none;
}

abbrev a_request : Request
a_request = record {
  path = b'/' ∷ b'a' ∷ [];
  authorization = b'b' ∷ b'e' ∷ b'a' ∷ b'r' ∷ b'E' ∷ b'r' ∷ b' ' ∷ b'x' ∷ [];
  tenant_header = "";
  user = none;
}

abbrev a_known_request : Request
a_known_request = record a_request {
  user = some (record {
    id = "u1";
    tenant_id = 1;
    email = "u1@example";
    name = "U";
    roles = "viewer" ∷ "admin" ∷ [];
  });
}

admitted : handler a_config an_authority a_request ≡ served a_known_request
unfolding handler
admitted = refl

handler-Admitted_example : Admitted a_config an_authority a_request a_known_request
handler-Admitted_example = handler-Admitted a_config an_authority a_request a_known_request admitted

allowed :
    behind (require_role "admin") (handler a_config an_authority a_request) ≡ served a_known_request
unfolding require_role handler
allowed = refl

require_role-IsAllowed_example : IsAllowed a_config an_authority a_request "admin" a_known_request
require_role-IsAllowed_example =
    require_role-IsAllowed a_config an_authority a_request a_known_request "admin" refl allowed

abbrev a_library : Library
a_library = record {
  trim_space = λ s. s;
  rune_count = λ s. 4;
  is_uuid = λ s. true;
  matches = λ pattern s. some true;
  is_json = λ s. true;
  field_count = λ s. 5;
  join = λ xs. "";
  digits = λ n. "7";
}

abbrev two_errors : Validator → Validator
two_errors v = add_error "name" "is too long" (add_error "name" "is required" v)

abbrev some_levels : List String
some_levels = "low" ∷ "high" ∷ []

accepts_iff_example :
    ((enum a_library "level" "high" some_levels empty ≡ empty) ↔ IsIn "high" some_levels)
    × ((range a_library "level" (pos 3) (pos 1) (pos 5) empty ≡ empty)
        ↔ ((pos 1 ≤ℤ pos 3) × (pos 3 ≤ℤ pos 5)))
    × ((min_length a_library "level" "high" (pos 1) empty ≡ empty) ↔ (pos 1 ≤ℤ pos 4))
    × ((max_length a_library "level" "high" (pos 5) empty ≡ empty) ↔ (pos 4 ≤ℤ pos 5))
    × ((cron_expression a_library "level" "high" empty ≡ empty) ↔ IsCron a_library "high")
accepts_iff_example = accepts_iff a_library "level" "high" empty some_levels (pos 3) (pos 1) (pos 5)
