-- ===== src/Security/Verifier.antt =====
-- `TokenVerifier`: mock tokens, or RS256 tokens of Supabase. PyJWT is a parameter.
use as_baptist_api.Prelude.{
  false, ℕ, Bool, not, String, Option, none, some, List, [], ◌∷◌, str_eq, is_none, if◌then◌else◌,
}
use as_baptist_api.Problem.{ProblemCode, unauthenticated, token_expired}
use as_baptist_api.Db.{UuidText}
use as_baptist_api.Security.Claims.{Claim, text, no_text, ClaimSet, AuthenticatedUser, from_claims}
use as_baptist_api.Security.Jwks.{KeySet, JwksCache, Reading, get_keys}

-- The exceptions of a verification. `uncaught` is one that `_verify_supabase` does not catch.
pub data JwtException : Type 0 where
  expired_signature invalid_token value_error : JwtException
  uncaught : JwtException

pub data Verified (A : Type 0) : Type 0 where
  accepted : A → Verified A
  raised : JwtException → Verified A

-- A token's header: the values of `alg` and `kid`, if it has them.
pub record Header : Type 0 where
  pub alg : Option Claim
  pub kid : Option Claim

-- The keyword arguments of `jwt.decode`.
pub record DecodeOptions : Type 0 where
  pub algorithms : List String
  pub required : List String
  pub verify_aud : Bool
  pub verify_iss : Bool
  pub audience : Option String
  pub issuer : Option String

-- What the source calls of PyJWT: `get_unverified_header`, `RSAAlgorithm.from_jwk` and `decode`,
-- where `none` is a payload that is no object.
pub record JwtLibrary (PublicKey : Type 0) : Type 0 where
  pub get_unverified_header : String → Verified Header
  pub from_jwk : String → Verified PublicKey
  pub decode : String → PublicKey → DecodeOptions → Verified (Option ClaimSet)

pub data AuthMode : Type 0 where
  mock supabase : AuthMode

-- The settings that authentication reads.
pub record AuthSettings : Type 0 where
  pub auth_mode : AuthMode
  pub supabase_jwks_url : Option String
  pub supabase_jwt_audience : Option String
  pub supabase_jwt_issuer : Option String
  pub mock_auth_token : String
  pub mock_auth_user_id : ℕ
  pub mock_auth_tenant_id : ℕ
  pub mock_auth_role : String

-- The outcome of `verify`: a user, or the code of the problem that is raised; `none` is an exception
-- that is not caught.
pub data Auth : Type 0 where
  user : AuthenticatedUser → Auth
  denied : ProblemCode → Auth
  escaped : Auth

-- An optional text that is there and not empty.
abbrev pub non_empty : Option String → Option String
non_empty none = none
non_empty (some t) = if str_eq t "" then none else some t

-- `keys.get(kid)`.
unfoldable pub get_key : String → KeySet → Option String
get_key kid [] = none
get_key kid ((k, jwk) ∷ rest) = if str_eq k kid then some jwk else get_key kid rest

unfoldable pub decode_options : AuthSettings → DecodeOptions
decode_options s = record {
  algorithms = "RS256" ∷ [];
  required = "exp" ∷ "sub" ∷ [];
  verify_aud = not (is_none s.supabase_jwt_audience);
  verify_iss = not (is_none s.supabase_jwt_issuer);
  audience = non_empty s.supabase_jwt_audience;
  issuer = non_empty s.supabase_jwt_issuer;
}

abbrev pub ◌then◌ : {A B : Type 0} → Verified A → (A → Verified B) → Verified B
◌then◌ (accepted a) f = f a
◌then◌ (raised e) f = raised e

abbrev pub is_rs256 : Option Claim → Bool
is_rs256 none = false
is_rs256 (some no_text) = false
is_rs256 (some (text alg)) = str_eq alg "RS256"

abbrev pub text_claim : Option Claim → Verified String
text_claim none = raised invalid_token
text_claim (some no_text) = raised invalid_token
text_claim (some (text t)) = accepted t

-- `header.get("alg") != "RS256" or not isinstance(kid, str)`: the `kid` of an acceptable header.
unfoldable pub header_kid : Header → Verified String
header_kid h = if is_rs256 h.alg then text_claim h.kid else raised invalid_token

-- `from_claims` on a payload that has to be an object.
unfoldable pub accept_claims : UuidText → Option ClaimSet → Verified AuthenticatedUser
unfolding from_claims
accept_claims u none = raised invalid_token
accept_claims u (some claims) = elim (from_claims u claims) [
  | none ↦ raised value_error
  | some w ↦ accepted w
]

abbrev pub recode : Verified AuthenticatedUser → Auth
recode (accepted w) = user w
recode (raised expired_signature) = denied token_expired
recode (raised invalid_token) = denied unauthenticated
recode (raised value_error) = denied unauthenticated
recode (raised uncaught) = escaped

-- `_verify_mock`.
unfoldable pub verify_mock : UuidText → AuthSettings → String → Auth
verify_mock u s token =
    if str_eq token s.mock_auth_token
    then user (record {
      id = s.mock_auth_user_id;
      tenant_id = some s.mock_auth_tenant_id;
      role = s.mock_auth_role;
      claims = ("sub", text (u.to_text s.mock_auth_user_id)) ∷ ("mock", no_text) ∷ [];
    })
    else denied unauthenticated

module _ {K : Type 0} (lib : JwtLibrary K) (u : UuidText) (s : AuthSettings) where
  -- From the keys on: the key of the token, its signature and claims.
  unfoldable pub check_token : String → String → Option KeySet → Verified AuthenticatedUser
  unfolding get_key decode_options accept_claims
  check_token token kid none = raised value_error
  check_token token kid (some keys) = elim (get_key kid keys) [
    | none ↦ raised invalid_token
    | some jwk ↦
        ◌then◌ (lib.from_jwk jwk)
          (λ key. ◌then◌ (lib.decode token key (decode_options s)) (accept_claims u))
  ]

  -- The outcome of a verification, and the key cache that it leaves.
  unfoldable pub verify_with_kid :
      String → Reading → JwksCache → JwksCache → Verified String → Auth × JwksCache
  unfolding get_keys check_token
  verify_with_kid token r cache waited (raised e) = (recode (raised e), cache)
  verify_with_kid token r cache waited (accepted kid) =
      let got = get_keys r cache waited in (recode (check_token token kid got.keys), got.cache)

  -- `_verify_supabase`.
  unfoldable pub verify_supabase : String → Reading → JwksCache → JwksCache → Auth × JwksCache
  unfolding verify_with_kid header_kid
  verify_supabase token r cache waited = elim (non_empty s.supabase_jwks_url) [
    | none ↦ (denied unauthenticated, cache)
    | some url ↦
        verify_with_kid token r cache waited (◌then◌ (lib.get_unverified_header token) header_kid)
  ]

  -- `verify`.
  unfoldable pub verify : String → Reading → JwksCache → JwksCache → Auth × JwksCache
  unfolding verify_mock verify_supabase
  verify token r cache waited = elim s.auth_mode [
    | mock ↦ (verify_mock u s token, cache)
    | supabase ↦ verify_supabase token r cache waited
  ]
