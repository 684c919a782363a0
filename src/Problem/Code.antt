-- ===== src/Problem/Code.antt =====
-- The error-code catalogue of `app/schemas/common.py`, and the defaults that
-- `PROBLEM_DEFINITIONS` of `app/core/errors.py` gives each code.
use as_baptist_api.Prelude.{ℕ, String}

pub data ProblemCode : Type 0 where
  unauthenticated token_expired tenant_scope_missing forbidden_role : ProblemCode
  location_out_of_scope not_found conflict duplicate_idempotency_key : ProblemCode
  preview_expired preview_price_drift validation_error phi_gate_failed : ProblemCode
  budget_exceeded balance_floor module_disabled rate_limited : ProblemCode
  provider_error provider_blocked internal_error : ProblemCode

-- `ProblemCode.value`.
abbrev pub value : ProblemCode → String
value unauthenticated = "UNAUTHENTICATED"
value token_expired = "TOKEN_EXPIRED"
value tenant_scope_missing = "TENANT_SCOPE_MISSING"
value forbidden_role = "FORBIDDEN_ROLE"
value location_out_of_scope = "LOCATION_OUT_OF_SCOPE"
value not_found = "NOT_FOUND"
value conflict = "CONFLICT"
value duplicate_idempotency_key = "DUPLICATE_IDEMPOTENCY_KEY"
value preview_expired = "PREVIEW_EXPIRED"
value preview_price_drift = "PREVIEW_PRICE_DRIFT"
value validation_error = "VALIDATION_ERROR"
value phi_gate_failed = "PHI_GATE_FAILED"
value budget_exceeded = "BUDGET_EXCEEDED"
value balance_floor = "BALANCE_FLOOR"
value module_disabled = "MODULE_DISABLED"
value rate_limited = "RATE_LIMITED"
value provider_error = "PROVIDER_ERROR"
value provider_blocked = "PROVIDER_BLOCKED"
value internal_error = "INTERNAL_ERROR"

pub record ProblemDefinition : Type 0 where
  pub status : ℕ
  pub title : String
  pub detail : String

abbrev define : ℕ → String → String → ProblemDefinition
define s t d = record { status = s; title = t; detail = d }

-- `PROBLEM_DEFINITIONS[code]`: the dictionary has an entry for each code.
abbrev pub problem_definitions : ProblemCode → ProblemDefinition
problem_definitions unauthenticated = define 401 "Unauthenticated" "Authentication is required."
problem_definitions token_expired = define 401 "Token expired" "The access token has expired."
problem_definitions tenant_scope_missing =
    define 403 "Tenant scope missing" "The token has no tenant scope."
problem_definitions forbidden_role =
    define 403 "Forbidden role" "This operation is not available for your role."
problem_definitions location_out_of_scope =
    define 403 "Location out of scope" "The location is outside your assigned scope."
problem_definitions not_found = define 404 "Not found" "The requested resource was not found."
problem_definitions conflict =
    define 409 "Conflict" "The resource changed before this operation completed."
problem_definitions duplicate_idempotency_key =
    define 409 "Duplicate idempotency key"
      "The idempotency key was already used with a different payload."
problem_definitions preview_expired = define 410 "Preview expired" "The cost preview has expired."
problem_definitions preview_price_drift =
    define 412 "Preview price drift" "The current price differs materially from the preview."
problem_definitions validation_error =
    define 422 "Validation error" "The request did not match the API contract."
problem_definitions phi_gate_failed =
    define 422 "PHI gate failed" "The content did not pass the PHI check."
problem_definitions budget_exceeded =
    define 402 "Budget exceeded" "The requested operation exceeds the configured budget."
problem_definitions balance_floor =
    define 402 "Balance floor" "The operation would breach the provider balance floor."
problem_definitions module_disabled =
    define 423 "Module disabled" "This module is disabled for the current scope."
problem_definitions rate_limited = define 429 "Rate limited" "Too many requests; try again later."
problem_definitions provider_error = define 502 "Provider error" "An upstream provider failed."
problem_definitions provider_blocked =
    define 503 "Provider blocked" "An upstream provider rejected the request."
problem_definitions internal_error = define 500 "Internal error" "An unexpected error occurred."
