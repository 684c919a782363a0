-- ===== src/Examples/Tags.antt =====
-- The entity tags of two tenants, with a digest that is constant.
use mathlib.Core.Path.{refl}
use as_baptist_api.Prelude.{◌≡◌, ℕ, zero, suc, arith, some, false}
use as_baptist_api.Db.{RequestContext}
use as_baptist_api.Web.{compute_etag, etag_matches}
use as_baptist_api.Web.Tenants.{has_dot, etag_matches-other_tenant}
use as_baptist_api.Examples.World.{unary, unary_text}

unary-no_dot : (n : ℕ) → has_dot (unary n) ≡ false
unfolding has_dot unary
unary-no_dot zero = refl
unary-no_dot (suc n) = unary-no_dot n

abbrev first_tenant : RequestContext
first_tenant = record { tenant_id = 1; actor_id = 7; role = "client_user" }

abbrev second_tenant : RequestContext
second_tenant = record { tenant_id = 2; actor_id = 9; role = "client_user" }

etag_matches-other_tenant_example :
    etag_matches
      (some (compute_etag unary_text (λ t. "0") second_tenant "{}"))
      (compute_etag unary_text (λ t. "0") first_tenant "{}")
    ≡ false
etag_matches-other_tenant_example =
    etag_matches-other_tenant unary_text (λ t. "0") first_tenant second_tenant "{}" "{}"
      unary-no_dot (omega arith)
