-- ===== src/Examples/Access.antt =====
-- Authentication at concrete inputs.
use mathlib.Core.Path.{refl}
use as_baptist_api.Prelude.{List, arith, some, none, String, [], ◌∷◌, ◌≡◌, ◌⊎◌, true, false}
use as_baptist_api.Problem.{forbidden_role, from_code}
use as_baptist_api.Db.{RequestContext, AppSettings, is_operator, ok, err, problem}
use as_baptist_api.Db.Isolation.{bound, caller_of-set_config}
use as_baptist_api.Security.{
  Reading, drain, new_cache, text, ClaimSet, AuthenticatedUser, from_claims, get_tenant_context,
  JwtLibrary, accepted, AuthSettings, supabase, verify, get_keys, require_operator,
}
use as_baptist_api.Security.Authentic.{IsAuthentic, verify-IsAuthentic}
use as_baptist_api.Security.Published.{last_key, stampede_serves_published}
use as_baptist_api.Security.{
  RawKey, key_object, no_object, no_text, published, failed, fetch, get_key,
}
use as_baptist_api.Security.Seam.{IsFromClaims, claims_bound, operators_agree}
use as_baptist_api.Examples.World.{unary_text, length_of}

-- Two keys under one id, one key without an id, and what is no key.
abbrev raw_keys : List RawKey
raw_keys =
    key_object (text "k1") "{}"
    ∷ no_object
    ∷ key_object no_text "[]"
    ∷ key_object (text "k1") "{e}"
    ∷ []

abbrev first : Reading
first = record { entered = 1; locked = 2; fetched = fetch (published raw_keys); finished = 5 }

abbrev second : Reading
second = record { entered = 1; locked = 6; fetched = fetch failed; finished = 9 }

stampede_serves_published_example :
    ((drain (first ∷ second ∷ []) new_cache).1 ≡ 1)
    × ((kid : String)
        → get_key kid (drain (first ∷ second ∷ []) new_cache).0.keys ≡ last_key kid raw_keys)
stampede_serves_published_example =
    stampede_serves_published first (second ∷ []) new_cache raw_keys refl refl refl
      (omega arith, tt)

-- The subject 2 of the tenant 1, in the notation of `unary_text`.
abbrev claims : ClaimSet
claims = ("sub", text "111") ∷ ("tenant_id", text "11") ∷ ("role", text "as_staff") ∷ []

abbrev staff : AuthenticatedUser
staff = record { id = 2; tenant_id = some 1; role = "as_staff"; claims = claims }

abbrev staff_context : RequestContext
staff_context = record { tenant_id = 1; actor_id = 2; role = "as_staff" }

abbrev unset : AppSettings
unset = record { tenant_id = none; actor_id = none; role = none; request_id = none }

-- A library that accepts the token `t`, signed by the key `k1`.
abbrev library : JwtLibrary String
library = record {
  get_unverified_header =
      λ t. accepted (record { alg = some (text "RS256"); kid = some (text "k1") });
  from_jwk = λ jwk. accepted jwk;
  decode = λ t key options. accepted (some claims);
}

abbrev settings : AuthSettings
settings = record {
  auth_mode = supabase;
  supabase_jwks_url = some "https://example.test/jwks";
  supabase_jwt_audience = some "api";
  supabase_jwt_issuer = none;
  mock_auth_token = "";
  mock_auth_user_id = 0;
  mock_auth_tenant_id = 0;
  mock_auth_role = "";
}

verify-IsAuthentic_example :
    IsAuthentic library unary_text settings "t" (get_keys first new_cache new_cache).keys staff
unfolding verify length_of fetch
verify-IsAuthentic_example =
    verify-IsAuthentic library unary_text settings "t" first new_cache new_cache refl refl

claims_bound_example : IsFromClaims unary_text claims (bound staff_context unset)
unfolding from_claims get_tenant_context length_of
claims_bound_example =
    claims_bound {w = staff} {ctx = staff_context} unary_text claims unset refl refl
      (caller_of-set_config unary_text staff_context unset)

operators_agree_example :
    ((require_operator staff_context ≡ ok staff_context)
      × (is_operator (bound staff_context unset).role ≡ true))
    ⊎ ((require_operator staff_context ≡ err (problem (from_code forbidden_role)))
        × (is_operator (bound staff_context unset).role ≡ false))
operators_agree_example =
    operators_agree unary_text staff_context unset
      (caller_of-set_config unary_text staff_context unset)
