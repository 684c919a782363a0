-- ===== src/Security/Deps.antt =====
-- The request dependencies of `app/deps.py`.
use as_baptist_api.Prelude.{
  ℕ, Bool, false, ◌||◌, String, Option, none, some, List, [], ◌∷◌, str_eq, if◌then◌else◌,
}
use as_baptist_api.Problem.{unauthenticated, tenant_scope_missing, forbidden_role, from_code}
use as_baptist_api.Db.{UuidText, RequestContext, Result, ok, err, problem}
use as_baptist_api.Security.Claims.{AuthenticatedUser}
use as_baptist_api.Security.Jwks.{JwksCache, Reading}
use as_baptist_api.Security.Verifier.{JwtLibrary, AuthSettings, Auth, denied, verify}

-- The set of operator roles.
abbrev pub operator_roles : List String
operator_roles = "as_admin" ∷ "as_staff" ∷ "system" ∷ []

abbrev pub contains : List String → String → Bool
contains [] r = false
contains (x ∷ xs) r = str_eq r x || contains xs r

-- `get_current_user`, where the credentials are the bearer token, if there is one.
unfoldable pub get_current_user :
    {K : Type 0}
    → JwtLibrary K
    → UuidText
    → AuthSettings
    → Option String
    → Reading
    → JwksCache
    → JwksCache
    → Auth × JwksCache
unfolding verify
get_current_user lib u s none r cache waited = (denied unauthenticated, cache)
get_current_user lib u s (some token) r cache waited = verify lib u s token r cache waited

abbrev scoped : AuthenticatedUser → Option ℕ → Result RequestContext
scoped w none = err (problem (from_code tenant_scope_missing))
scoped w (some t) = ok (record { tenant_id = t; actor_id = w.id; role = w.role })

unfoldable pub get_tenant_context : AuthenticatedUser → Result RequestContext
unfolding from_code
get_tenant_context w = scoped w w.tenant_id

unfoldable pub require_operator : RequestContext → Result RequestContext
unfolding from_code
require_operator ctx =
    if contains operator_roles ctx.role then ok ctx else err (problem (from_code forbidden_role))
