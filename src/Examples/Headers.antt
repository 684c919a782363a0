-- ===== src/Examples/Headers.antt =====
-- A request id that a client chose, an error that carries it, and its way through the middleware.
use mathlib.Core.Path.{refl}
use as_baptist_api.Prelude.{◌≡◌, true, some}
use as_baptist_api.Problem.{other, handle}
use as_baptist_api.Web.{is_acceptable, request_id}
use as_baptist_api.Web.Accepted.{request_id_carried}
use as_baptist_api.Web.Correlated.{IsContextVars, request_id_middleware_isolates}
use as_baptist_api.Prelude.{eq_iff, str_eq, String, List, Option, none, [], ◌∷◌, if◌then◌else◌}
use as_baptist_api.Web.{ContextVars, Called, raised, request_id_middleware, sent_id, tagged}
use as_baptist_api.Problem.{Request}

request_id_carried_example :
    let id = request_id (λ c. true) "0a1b" (some "req-7") in
    let response = handle (λ n. "0") (record { request_id = some id; path = "/v1/me" }) other in
    (is_acceptable (λ c. true) id ≡ true)
    × (request_id (λ c. true) "9f" (some id) ≡ id)
    × (response.x_request_id ≡ id)
    × (response.content.request_id ≡ id)
unfolding is_acceptable
request_id_carried_example =
    request_id_carried (λ c. true) "0a1b" "9f" (some "req-7") (λ n. "0") "/v1/me" other refl

abbrev lookup : String → List (String × String) → Option String
lookup name [] = none
lookup name (bound ∷ rest) =
    let later = lookup name rest in if str_eq name bound.0 then some bound.1 else later

abbrev variables : ContextVars (List (String × String))
variables = record {
  clear_contextvars = λ c. [];
  bind_contextvars = λ name value c. (name, value) ∷ c;
  get = lookup;
}

lookup_bound :
    (name value : String) (c : List (String × String))
    → lookup name ((name, value) ∷ c) ≡ some value
lookup_bound name value c = rw ((eq_iff name name).1 refl)

variables-IsContextVars : IsContextVars variables
variables-IsContextVars = record {
  clears = λ c c'. refl;
  forgets = λ name c. refl;
  finds = lookup_bound;
}

-- A route that binds another name and raises.
abbrev failing : Request → List (String × String) → Called String × List (String × String)
failing request c = (raised, ("tenant", "acme") ∷ c)

abbrev leftover : List (String × String)
leftover = ("request_id", "an-earlier-one") ∷ []

request_id_middleware_isolates_example :
    let request : Request = record {
      request_id = some (request_id (λ c. true) "0a1b" (some "req-7"));
      path = "/v1/me";
    } in
    let id = request_id (λ c. true) "0a1b" (some "req-7") in
    let ended =
      request_id_middleware variables (λ c. true) "0a1b" (some "req-7") "/v1/me" failing leftover in
    ((logs : List (String × String)) × (variables.get "request_id" logs ≡ some id)
      × (ended.0 ≡ tagged id (failing request logs).0))
    × (sent_id (λ n. "0") request ended.0 ≡ some id)
    × ((name : String) → variables.get name ended.1 ≡ none)
    × (ended
        ≡ request_id_middleware variables (λ c. true) "0a1b" (some "req-7") "/v1/me" failing [])
unfolding is_acceptable
request_id_middleware_isolates_example =
    request_id_middleware_isolates variables variables-IsContextVars (λ c. true) "0a1b" refl
      (some "req-7") "/v1/me" (λ n. "0") failing leftover []
