-- ===== src/Examples/Errors.antt =====
-- The theorems on error responses at concrete problems.
use as_baptist_api.Health.Ready.{ready-cases, SaysReady, IsUnavailable}
use as_baptist_api.Health.{
  StateProbe, other_check, returned, ready_, timeout_error, readiness_probe, ready,
}
use mathlib.Core.Path.{refl}
use as_baptist_api.Problem.Response.{handle_envelope}
use as_baptist_api.Problem.{problem, not_found, from_code, Request}
use as_baptist_api.Problem.{handle}
use as_baptist_api.Problem.{type_uri}
use as_baptist_api.Prelude.{true, ◌⊎◌, ◌≢◌, none, ℕ, String, ◌≡◌}

abbrev request : Request
request = record { request_id = none; path = "/v1/me" }

abbrev digit : ℕ → String
digit n = "0"

handle_envelope_example :
    let response = handle digit request (problem (from_code not_found)) in
    (response.status_code ≡ response.content.status)
    × (response.x_request_id ≡ response.content.request_id)
    × (response.x_request_id ≢ "")
    × (response.media_type ≡ "application/problem+json")
handle_envelope_example = handle_envelope digit request (problem (from_code not_found))

-- `type_uri` as the service prints it.
not_found_uri : type_uri not_found ≡ "https://api.baptist-gbp.com/errors/not_found"
unfolding type_uri
not_found_uri = refl

-- A probe that a test sets in place of the database's.
abbrev healthy_probe : StateProbe
healthy_probe = other_check (returned true)

ready-cases_example :
    ((ready digit request (readiness_probe healthy_probe timeout_error)
        ≡ ready_ (record { status = "ready" }))
      × SaysReady healthy_probe timeout_error)
    ⊎ (IsUnavailable (ready digit request (readiness_probe healthy_probe timeout_error))
        × (SaysReady healthy_probe timeout_error → ⊥))
ready-cases_example = ready-cases digit request healthy_probe timeout_error
