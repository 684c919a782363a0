-- ===== src/Problem/Response.antt =====
-- What every error response of the service has in common.
use as_baptist_api.Prelude.{
  ℕ, ◌≤◌, ◌<◌, String, ◌≡◌, refl, ◌≢◌, inl, inr, Option, none, some, List, [], ◌∷◌, length, arith,
  eq_iff, str_eq, or_text, Bool-cases,
}
use as_baptist_api.Problem.Code.{ProblemCode, unauthenticated}
use as_baptist_api.Problem.Api.{
  FieldError, Request, ValidationEntry, AppException, problem, request_validation, other, from_code,
  field_errors, join_from, handle,
}

or_text-ne-empty : (o : Option String) (d : String) → d ≢ "" → or_text o d ≢ ""
or_text-ne-empty none d h = h
or_text-ne-empty (some t) d h = elim (Bool-cases (str_eq t "")) [
  | inl e ↦ rw e h
  | inr e ↦ rw e (λ p. ground (arith, eq_iff t "", e, p))
]

unknown-ne-empty : ◌≢◌ {A = String} "unknown" ""
unknown-ne-empty = ground (arith, eq_iff "unknown" "")

request-ne-empty : ◌≢◌ {A = String} "request" ""
request-ne-empty = ground (arith, eq_iff "request" "")

-- Whatever exception reaches the handlers, the HTTP status is the status in the body, the
-- `X-Request-ID` header is the request id in the body and is not empty, and the media type is that
-- of problem details.
pub handle_envelope :
    (str_index : ℕ → String) (r : Request) (e : AppException)
    → let response = handle str_index r e in
      (response.status_code ≡ response.content.status)
      × (response.x_request_id ≡ response.content.request_id)
      × (response.x_request_id ≢ "")
      × (response.media_type ≡ "application/problem+json")
unfolding handle
handle_envelope f r (problem p) =
    (refl, refl, or_text-ne-empty r.request_id "unknown" unknown-ne-empty, refl)
handle_envelope f r (request_validation es) =
    (refl, refl, or_text-ne-empty r.request_id "unknown" unknown-ne-empty, refl)
handle_envelope f r other =
    (refl, refl, or_text-ne-empty r.request_id "unknown" unknown-ne-empty, refl)

-- A problem raised by its code alone is an HTTP error, of the 4xx or the 5xx class.
pub from_code_status :
    (c : ProblemCode) → (400 ≤ (from_code c).status) × ((from_code c).status < 600)
unfolding from_code
from_code_status unauthenticated = omega arith
from_code_status _ = omega arith

abbrev pub HasFields : List FieldError → Type 0
HasFields [] = Unit {0}
HasFields (e ∷ es) = (e.field ≢ "") × HasFields es

field_errors-HasFields :
    (f : ℕ → String) (es : List ValidationEntry) → HasFields (field_errors f es)
unfolding field_errors
field_errors-HasFields f [] = tt
field_errors-HasFields f (e ∷ es) = (
  or_text-ne-empty (some (join_from f none e.loc)) "request" request-ne-empty,
  field_errors-HasFields f es,
)

length-field_errors :
    (f : ℕ → String) (es : List ValidationEntry) → length (field_errors f es) ≡ length es
unfolding field_errors
length-field_errors f [] = refl
length-field_errors f (e ∷ es) = omega (arith, length-field_errors f es)

-- A request that fails validation gets a 422 with one entry for each validation error, and each
-- entry names a field, `request` where the location says nothing.
pub validation_lists_fields :
    (str_index : ℕ → String) (r : Request) (es : List ValidationEntry)
    → (reported : List FieldError) × ((handle str_index r (request_validation es)).content.errors
        ≡ some reported)
      × ((handle str_index r (request_validation es)).status_code ≡ 422)
      × (length reported ≡ length es)
      × HasFields reported
unfolding handle
validation_lists_fields f r es =
    (field_errors f es, refl, refl, length-field_errors f es, field_errors-HasFields f es)
