-- ===== src/Problem/Uri.antt =====
-- A problem's code can be read back from its type URI.
use as_baptist_api.Prelude.{
  String, ◌≡◌, refl, Option, none, some, List, [], ◌∷◌, str_eq, if◌then◌else◌,
}
use as_baptist_api.Problem.Code.{
  ProblemCode, unauthenticated, token_expired, tenant_scope_missing, forbidden_role,
  location_out_of_scope, not_found, conflict, duplicate_idempotency_key, preview_expired,
  preview_price_drift, validation_error, phi_gate_failed, budget_exceeded, balance_floor,
  module_disabled, rate_limited, provider_error, provider_blocked, internal_error,
}
use as_baptist_api.Problem.Api.{type_uri}

abbrev all_codes : List ProblemCode
all_codes =
    unauthenticated ∷ token_expired ∷ tenant_scope_missing ∷ forbidden_role ∷ location_out_of_scope
    ∷ not_found ∷ conflict ∷ duplicate_idempotency_key ∷ preview_expired ∷ preview_price_drift
    ∷ validation_error ∷ phi_gate_failed ∷ budget_exceeded ∷ balance_floor ∷ module_disabled
    ∷ rate_limited ∷ provider_error ∷ provider_blocked ∷ internal_error ∷ []

-- A client's table lookup: the first code of the catalogue with this URI.
code_among : List ProblemCode → String → Option ProblemCode
code_among [] uri = none
code_among (c ∷ cs) uri =
    let rest = code_among cs uri in if str_eq (type_uri c) uri then some c else rest

pub code_of_uri : String → Option ProblemCode
unfolding code_among
code_of_uri = code_among all_codes

-- Looking a problem's type URI up in the catalogue gives back its code, so distinct codes have
-- distinct URIs.
pub code_of_uri-type_uri : (c : ProblemCode) → code_of_uri (type_uri c) ≡ some c
unfolding code_of_uri type_uri
code_of_uri-type_uri unauthenticated = refl
code_of_uri-type_uri _ = refl
