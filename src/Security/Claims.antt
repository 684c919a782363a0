-- ===== src/Security/Claims.antt =====
-- `AuthenticatedUser.from_claims`.
use as_baptist_api.Prelude.{ℕ, String, Option, none, some, List, [], ◌∷◌, str_eq, if◌then◌else◌}
use as_baptist_api.Db.{UuidText}

-- A value of a claim: a text, or anything else.
pub data Claim : Type 0 where
  text : String → Claim
  no_text : Claim

abbrev pub ClaimSet : Type 0
ClaimSet = List (String × Claim)

-- `claims.get(name)`.
unfoldable pub get_claim : String → ClaimSet → Option Claim
get_claim name [] = none
get_claim name ((n, v) ∷ rest) = if str_eq n name then some v else get_claim name rest

pub record AuthenticatedUser : Type 0 where
  pub id : ℕ
  pub tenant_id : Option ℕ
  pub role : String
  pub claims : ClaimSet

-- `UUID(tenant_claim) if isinstance(tenant_claim, str) else None`; the outer `none` is a `ValueError`.
unfoldable pub tenant_of : UuidText → Option Claim → Option (Option ℕ)
tenant_of u none = some none
tenant_of u (some no_text) = some none
tenant_of u (some (text t)) = elim (u.of_text t) [ none ↦ none | some n ↦ some (some n) ]

-- `claims.get("role", "client_user")`, which has to be a text.
unfoldable pub role_of : Option Claim → Option String
role_of none = some "client_user"
role_of (some no_text) = none
role_of (some (text r)) = some r

unfoldable pub subject_of : UuidText → Option Claim → Option ℕ
subject_of u none = none
subject_of u (some no_text) = none
subject_of u (some (text s)) = u.of_text s

abbrev make_user :
    ClaimSet → Option (Option ℕ) → Option String → Option ℕ → Option AuthenticatedUser
make_user claims (some t) (some r) (some s) =
    some (record { id = s; tenant_id = t; role = r; claims = claims })
make_user claims _ _ _ = none

-- `from_claims`; `none` is a `ValueError`.
unfoldable pub from_claims : UuidText → ClaimSet → Option AuthenticatedUser
unfolding tenant_of role_of subject_of get_claim
from_claims u claims =
    make_user claims (tenant_of u (get_claim "tenant_id" claims))
      (role_of (get_claim "role" claims)) (subject_of u (get_claim "sub" claims))
