-- ===== src/Auth/Admitting.antt =====
-- Which requests get through the authentication, and what the context then says.
use orchestrix_api.Common.{
  ℕ, ◌≡◌, ◌≢◌, refl, ap, ◌∙◌, String, Bool, true, false, Option, none, some, List, [], ◌∷◌, ◌++◌,
  All, arith, Bool-cases, inl, inr, str_eq, eq_iff, subst, ◌==◌ as nat_eq,
}
use orchestrix_api.Fault.{Error, Result, ok, err}
use orchestrix_api.Auth.{
  Text, User, KeycloakClaims, Config, Request, Outcome, replied, served, Authority, has_prefix,
  user_has_role, is_skipped, split, add_part, bearer_parts, equal_fold, bearer, bearer_token,
  jwks_url, issuer, user_of, with_claims, with_token, with_header, with_keys, handler, is_member,
  has_role, require_role, behind,
}

-- A path starts with one of the skipped ones.
pub data Skips (path : Text) : List Text → Type 0 where
  here : {p : Text} {ps : List Text} (rest : Text) → path ≡ p ++ rest → Skips path (p ∷ ps)
  there : {p : Text} {ps : List Text} → Skips path ps → Skips path (p ∷ ps)

has_prefix-append : (path p : Text) → has_prefix path p ≡ true → (rest : Text) × (path ≡ p ++ rest)
unfolding has_prefix
has_prefix-append path [] q = (path, refl)
has_prefix-append [] (c ∷ p) q = cc
has_prefix-append (d ∷ path) (c ∷ p) q =
    let (rest, e) = has_prefix-append path p (ground arith) in
    let same : d ≡ c = ground arith in (rest, cc (same, e))

is_skipped-Skips : (path : Text) (ps : List Text) → is_skipped path ps ≡ true → Skips path ps
unfolding is_skipped
is_skipped-Skips path [] q = cc
is_skipped-Skips path (p ∷ ps) q = elim (Bool-cases (has_prefix path p)) [
  | inl c ↦ (let (rest, e) = has_prefix-append path p c in here rest e)
  | inr c ↦ there (is_skipped-Skips path ps (rw c at q))
]

-- A header is the scheme, in any case, and a token without a space.
pub record IsBearer (header token : Text) : Type 0 where
  pub scheme : Text
  pub written : header ≡ scheme ++ b' ' ∷ token
  pub folds : equal_fold scheme bearer ≡ true
  pub one_token : All (λ c. c ≢ b' ') token

-- How a request gets through: on a skipped path as it is, or with a valid token in its header, as the
-- user of its claims.
pub data Admitted (c : Config) (a : Authority) (r : Request) : Request → Type 0 where
  skipped : Skips r.path c.skip_paths → Admitted c a r r
  authenticated :
      (token : Text) (k : KeycloakClaims)
      → a.keys (jwks_url c a) ≡ none
      → IsBearer r.authorization token
      → a.parse_with_claims (issuer c a) token ≡ ok (k, true)
      → Admitted c a r (record r { user = some (user_of c a k) })

abbrev joined : Text × List Text → Text
joined (p, []) = p
joined (p, q ∷ qs) = p ++ b' ' ∷ joined (q, qs)

abbrev Unspaced : Text × List Text → Type 0
Unspaced (p, ps) = All (λ c. c ≢ b' ') p × All (λ q. All (λ c. c ≢ b' ') q) ps

add_part-joined : (c : ℕ) (x : Text × List Text) → joined (add_part c x) ≡ c ∷ joined x
add_part-joined c (p, []) = ground arith
add_part-joined c (p, q ∷ qs) = ground arith

add_part-Unspaced : (c : ℕ) (x : Text × List Text) → Unspaced x → Unspaced (add_part c x)
add_part-Unspaced c (p, ps) (u, us) = elim (Bool-cases (nat_eq c b' ')) [
  | inl q ↦ rw q (tt, (u, us))
  | inr q ↦ rw q ((ground arith, u), us)
]

split-joined : (s : Text) → joined (split s) ≡ s
unfolding split
split-joined [] = refl
split-joined (c ∷ s) = add_part-joined c (split s) ∙ ap (λ t. c ∷ t) (split-joined s)

split-Unspaced : (s : Text) → Unspaced (split s)
unfolding split
split-Unspaced [] = (tt, tt)
split-Unspaced (c ∷ s) = add_part-Unspaced c (split s) (split-Unspaced s)

bearer_parts-IsBearer :
    (header token : Text) (x : Text × List Text)
    → joined x ≡ header
    → Unspaced x
    → bearer_parts x ≡ some token
    → IsBearer header token
bearer_parts-IsBearer header token (p, []) j u q = cc
bearer_parts-IsBearer header token (p, t ∷ t' ∷ ts) j u q = cc
bearer_parts-IsBearer header token (p, t ∷ []) j (u, us) q =
    let same : t ≡ token = ground arith in
    record {
      scheme = p;
      written = cc (j, same);
      folds = ground arith;
      one_token = subst (λ (x : Text). All (λ c. c ≢ b' ') x) same us.0;
    }

bearer_token-IsBearer :
    (header token : Text) → bearer_token header ≡ some token → IsBearer header token
unfolding bearer_token
bearer_token-IsBearer header token q =
    bearer_parts-IsBearer header token (split header) (split-joined header) (split-Unspaced header)
      q

module _ (c : Config) (a : Authority) (r next : Request) where
  with_claims-Admitted :
      (token : Text) (x : Result (KeycloakClaims × Bool))
      → a.keys (jwks_url c a) ≡ none
      → IsBearer r.authorization token
      → a.parse_with_claims (issuer c a) token ≡ x
      → with_claims c a r x ≡ served next
      → Admitted c a r next
  unfolding with_claims
  with_claims-Admitted token (err e) up b p q = cc
  with_claims-Admitted token (ok (k, false)) up b p q = cc
  with_claims-Admitted token (ok (k, true)) up b p q =
      let same : record r { user = some (user_of c a k) } ≡ next = cc q in
      subst (λ (n : Request). Admitted c a r n) same (authenticated token k up b p)

  with_token-Admitted :
      (o : Option Text)
      → a.keys (jwks_url c a) ≡ none
      → bearer_token r.authorization ≡ o
      → with_token c a r o ≡ served next
      → Admitted c a r next
  unfolding with_token
  with_token-Admitted none up b q = cc
  with_token-Admitted (some token) up b q =
      with_claims-Admitted token (a.parse_with_claims (issuer c a) token) up
        (bearer_token-IsBearer r.authorization token b) refl q

  with_header-Admitted :
      (header : Text)
      → a.keys (jwks_url c a) ≡ none
      → r.authorization ≡ header
      → with_header c a r header ≡ served next
      → Admitted c a r next
  unfolding with_header
  with_header-Admitted [] up h q = cc
  with_header-Admitted (x ∷ xs) up h q =
      with_token-Admitted (bearer_token (x ∷ xs)) up (ap (λ t. bearer_token t) h) q

  with_keys-Admitted :
      (o : Option Error)
      → a.keys (jwks_url c a) ≡ o
      → with_keys c a r o ≡ served next
      → Admitted c a r next
  with_keys-Admitted (some e) up q = cc
  with_keys-Admitted none up q = with_header-Admitted r.authorization up refl q

  -- A request that gets through the authentication is on a skipped path, and goes on as it was, or
  -- has a bearer token that is valid for the issuer, and goes on as the user of its claims.
  pub handler-Admitted : handler c a r ≡ served next → Admitted c a r next
  unfolding handler
  handler-Admitted q = elim (Bool-cases (is_skipped r.path c.skip_paths)) [
    | inl s ↦
        (let same : r ≡ next = cc (rw s at q) in
          subst (λ (n : Request). Admitted c a r n) same
            (skipped (is_skipped-Skips r.path c.skip_paths s)))
    | inr s ↦ with_keys-Admitted (a.keys (jwks_url c a)) refl (rw s at q)
  ]

-- A role is among the roles.
pub data IsAmong (role : String) : List String → Type 0 where
  here : {s : String} {rs : List String} → s ≡ role → IsAmong role (s ∷ rs)
  there : {s : String} {rs : List String} → IsAmong role rs → IsAmong role (s ∷ rs)

is_member-IsAmong : (role : String) (rs : List String) → is_member role rs ≡ true → IsAmong role rs
unfolding is_member
is_member-IsAmong role [] q = cc
is_member-IsAmong role (s ∷ rs) q = elim (Bool-cases (str_eq s role)) [
  | inl c ↦ IsAmong.here ((eq_iff s role).0 c)
  | inr c ↦ IsAmong.there (is_member-IsAmong role rs (rw c at q))
]

-- The context of a request is that of a user with the role.
pub record IsAllowed (c : Config) (a : Authority) (r : Request) (role : String) (next : Request)
    : Type 0 where
  pub token : Text
  pub claims : KeycloakClaims
  pub bears : IsBearer r.authorization token
  pub valid : a.parse_with_claims (issuer c a) token ≡ ok (claims, true)
  pub has : IsAmong role claims.realm_roles
  pub user : next.user ≡ some (user_of c a claims)

require_role-user :
    (role : String) (r next : Request) (u : User)
    → r.user ≡ some u
    → require_role role r ≡ served next
    → (is_member role u.roles ≡ true) × (next ≡ r)
unfolding require_role has_role user_has_role
require_role-user role r next u q e = elim (Bool-cases (is_member role u.roles)) [
  | inl c ↦ (c, cc (rw (q, c) at e))
  | inr c ↦ cc (rw (q, c) at e)
]

require_role-none :
    (role : String) (r next : Request) → r.user ≡ none → require_role role r ≢ served next
unfolding require_role has_role user_has_role
require_role-none role r next q e = cc (rw q at e)

Admitted-IsAllowed :
    (c : Config) (a : Authority) (r mid next : Request) (role : String)
    → r.user ≡ none
    → Admitted c a r mid
    → require_role role mid ≡ served next
    → IsAllowed c a r role next
unfolding user_of
Admitted-IsAllowed c a r mid next role anonymous (skipped s) e =
    absurd (require_role-none role r next anonymous e)
Admitted-IsAllowed c a r mid next role anonymous (authenticated token k up b p) e =
    let (m, same) =
      require_role-user role (record r { user = some (user_of c a k) }) next (user_of c a k) refl
        e in
    record {
      token = token;
      claims = k;
      bears = b;
      valid = p;
      has = is_member-IsAmong role k.realm_roles m;
      user = ap (λ n. n.user) same;
    }

-- A handler that wants a role, behind the authentication, serves only requests with a bearer token
-- that is valid for the issuer and whose claims have the role; also on a skipped path. Condition: the
-- request comes without a user.
pub require_role-IsAllowed :
    (c : Config) (a : Authority) (r next : Request) (role : String)
    → r.user ≡ none
    → behind (require_role role) (handler c a r) ≡ served next
    → IsAllowed c a r role next
require_role-IsAllowed c a r next role anonymous e = go (handler c a r) refl e
  where
    go :
        (o : Outcome)
        → handler c a r ≡ o
        → behind (require_role role) o ≡ served next
        → IsAllowed c a r role next
    go (replied status message) h e = cc
    go (served mid) h e =
        Admitted-IsAllowed c a r mid next role anonymous (handler-Admitted c a r mid h) e
