-- ===== src/Auth.antt =====
-- internal/auth/middleware.go, internal/auth/tenant.go and internal/tenant/middleware.go. A text that
-- the code takes apart stands as its code points. A handler either replies itself or calls the next
-- one with a context.
pub mod Admitting
use orchestrix_api.Common.{
  ℕ, ◌+◌, String, ◌+++◌, Bool, true, false, Option, none, some, List, [], ◌∷◌, ltb, leb, ◌&&◌,
  if◌then◌else◌, str_eq, ◌==◌ as nat_eq,
}
use orchestrix_api.Fault.{Error, Result, ok, err}
use orchestrix_api.Domain.Values.{Uuid, nil_uuid}

abbrev pub Text : Type 0
Text = List ℕ

pub record User : Type 0 where
  pub id : String
  pub tenant_id : Uuid
  pub email : String
  pub name : String
  pub roles : List String

-- KeycloakClaims, as far as the user is made of them.
pub record KeycloakClaims : Type 0 where
  pub subject : String
  pub email : String
  pub name : String
  pub tenant_id : String
  pub realm_roles : List String

pub record Config : Type 0 where
  pub keycloak_url : String
  pub realm : String
  pub client_id : String
  pub skip_paths : List Text

pub record Request : Type 0 where
  pub path : Text
  pub authorization : Text
  pub tenant_header : String
  pub user : Option User

pub data Outcome : Type 0 where
  replied : ℕ → String → Outcome
  served : Request → Outcome

-- The libraries: the fetch of the keys at a URL, which is made once, the check of a token for an
-- issuer, with the claims and whether it is valid, `uuid.Parse`, and a statement of the database.
pub record Authority : Type 0 where
  pub keys : String → Option Error
  pub parse_with_claims : String → Text → Result (KeycloakClaims × Bool)
  pub parse_uuid : String → Uuid × Option Error
  pub set_config : Uuid → Option Error

-- strings.HasPrefix
unfoldable pub has_prefix : Text → Text → Bool
has_prefix s [] = true
has_prefix [] (p ∷ ps) = false
has_prefix (c ∷ s) (p ∷ ps) = nat_eq c p && has_prefix s ps

-- The loop over SkipPaths.
unfoldable pub is_skipped : Text → List Text → Bool
unfolding has_prefix
is_skipped path [] = false
is_skipped path (p ∷ ps) = if has_prefix path p then true else is_skipped path ps

-- strings.Split(s, " "): the first part, and the others.
abbrev pub add_part : ℕ → Text × List Text → Text × List Text
add_part c (part, parts) = if nat_eq c b' ' then ([], part ∷ parts) else (c ∷ part, parts)

unfoldable pub split : Text → Text × List Text
split [] = ([], [])
split (c ∷ s) = add_part c (split s)

-- strings.EqualFold with "Bearer", whose letters have no foldings but the two cases.
unfoldable pub lower : ℕ → ℕ
lower c = if leb b'A' c && leb c b'Z' then c + 32 else c

unfoldable pub equal_fold : Text → Text → Bool
unfolding lower
equal_fold [] [] = true
equal_fold (c ∷ s) (d ∷ t) = nat_eq (lower c) (lower d) && equal_fold s t
equal_fold _ _ = false

abbrev pub bearer : Text
bearer = b'B' ∷ b'e' ∷ b'a' ∷ b'r' ∷ b'e' ∷ b'r' ∷ []

-- The token, if there are two parts and the first is the scheme.
abbrev pub bearer_parts : Text × List Text → Option Text
bearer_parts (scheme, token ∷ []) = if equal_fold scheme bearer then some token else none
bearer_parts _ = none

unfoldable pub bearer_token : Text → Option Text
unfolding split equal_fold
bearer_token header = bearer_parts (split header)

module _ (c : Config) (a : Authority) where
  abbrev pub jwks_url : String
  jwks_url = c.keycloak_url +++ "/realms/" +++ c.realm +++ "/protocol/openid-connect/certs"

  -- The issuer does not follow the configured URL.
  abbrev pub issuer : String
  issuer = "http://localhost:8180/realms/" +++ c.realm

  -- A tenant that does not parse is only logged: what `uuid.Parse` returns beside its error is kept.
  unfoldable pub tenant_of : KeycloakClaims → Uuid
  tenant_of k = if str_eq k.tenant_id "" then nil_uuid else (a.parse_uuid k.tenant_id).0

  unfoldable pub user_of : KeycloakClaims → User
  unfolding tenant_of
  user_of k = record {
    id = k.subject;
    tenant_id = tenant_of k;
    email = k.email;
    name = k.name;
    roles = k.realm_roles;
  }

  unfoldable pub with_claims : Request → Result (KeycloakClaims × Bool) → Outcome
  unfolding user_of
  with_claims r (err e) = replied 401 "invalid token"
  with_claims r (ok (k, false)) = replied 401 "invalid token claims"
  with_claims r (ok (k, true)) = served (record r { user = some (user_of k) })

  unfoldable pub with_token : Request → Option Text → Outcome
  unfolding with_claims
  with_token r none = replied 401 "invalid authorization header"
  with_token r (some token) = with_claims r (a.parse_with_claims issuer token)

  unfoldable pub with_header : Request → Text → Outcome
  unfolding with_token bearer_token
  with_header r [] = replied 401 "authorization required"
  with_header r (x ∷ xs) = with_token r (bearer_token (x ∷ xs))

  abbrev pub with_keys : Request → Option Error → Outcome
  with_keys r (some e) = replied 503 "authentication service unavailable"
  with_keys r none = with_header r r.authorization

  -- Middleware.Handler
  unfoldable pub handler : Request → Outcome
  unfolding is_skipped with_header
  handler r = if is_skipped r.path c.skip_paths then served r else with_keys r (a.keys jwks_url)

unfoldable pub is_member : String → List String → Bool
is_member role [] = false
is_member role (r ∷ rs) = if str_eq r role then true else is_member role rs

unfoldable pub user_has_role : String → Option User → Bool
unfolding is_member
user_has_role role none = false
user_has_role role (some u) = is_member role u.roles

unfoldable pub has_role : Request → String → Bool
unfolding user_has_role
has_role r role = user_has_role role r.user

unfoldable pub require_role : String → Request → Outcome
unfolding has_role
require_role role r = if has_role r role then served r else replied 403 "forbidden"

-- A handler behind another.
abbrev pub behind : (Request → Outcome) → Outcome → Outcome
behind next (replied status message) = replied status message
behind next (served r) = next r

abbrev tenant_or_nil : Option User → Uuid
tenant_or_nil none = nil_uuid
tenant_or_nil (some u) = u.tenant_id

unfoldable pub get_tenant_id : Request → Uuid
get_tenant_id r = tenant_or_nil r.user

-- TenantMiddleware.Handler, with the tenants that it has set in the session of the database.
abbrev after_set : Request → Uuid → Option Error → Outcome × List Uuid
after_set r id none = (served r, id ∷ [])
after_set r id (some e) = (replied 500 "failed to set tenant context", [])

abbrev set_for : Authority → Request → Option User → Outcome × List Uuid
set_for a r none = (served r, [])
set_for a r (some u) =
    if nat_eq u.tenant_id nil_uuid
    then (served r, [])
    else after_set r u.tenant_id (a.set_config u.tenant_id)

unfoldable pub tenant_handler : Authority → Request → Outcome × List Uuid
tenant_handler a r = set_for a r r.user

-- internal/tenant/middleware.go
pub record Context : Type 0 where
  pub id : Uuid
  pub name : String
  pub plan : String

pub data Tenancy : Type 0 where
  refused : ℕ → String → Tenancy
  accepted : Context → Tenancy

abbrev of_parsed : Uuid × Option Error → Tenancy
of_parsed (id, some e) = refused 400 "invalid tenant ID"
of_parsed (id, none) = accepted (record { id = id; name = "default"; plan = "pro" })

unfoldable pub tenant_middleware : Authority → Request → Tenancy
tenant_middleware a r =
    if str_eq r.tenant_header ""
    then refused 401 "tenant ID required"
    else of_parsed (a.parse_uuid r.tenant_header)
