-- ===== src/Web/Correlated.antt =====
-- The request id in the logs and in the answer of one request.
use Prim.Native.Char.{Char}
use mathlib.Core.Path.{refl, ap}
use as_baptist_api.Prelude.{ℕ, Bool, true, String, Option, none, some, ◌≡◌}
use as_baptist_api.Problem.{Request, other}
use as_baptist_api.Web.{
  is_acceptable, request_id, ContextVars, Called, returned, raised, bind_request, clear_request,
  tagged, request_id_middleware, sent_id,
}
use as_baptist_api.Web.Accepted.{request_id_carried}

-- What structlog documents: clearing forgets everything, and a bound name is found.
pub record IsContextVars {C : Type 0} (k : ContextVars C) : Type 0 where
  pub clears : (c c' : C) → k.clear_contextvars c ≡ k.clear_contextvars c'
  pub forgets : (name : String) (c : C) → k.get name (k.clear_contextvars c) ≡ none
  pub finds :
      (name value : String) (c : C) → k.get name (k.bind_contextvars name value c) ≡ some value

module _ {C A : Type 0} (k : ContextVars C) (laws : IsContextVars k) (isalnum : Char → Bool)
    (fresh : String) (good : is_acceptable isalnum fresh ≡ true) (header : Option String)
    (path : String) (str_index : ℕ → String) where
  sent_id-tagged :
      (answer : Called A)
      → let id = request_id isalnum fresh header in
        sent_id str_index (record { request_id = some id; path = path }) (tagged id answer)
        ≡ some id
  unfolding sent_id
  sent_id-tagged (returned response) = refl
  sent_id-tagged raised =
      ap some (request_id_carried isalnum fresh fresh header str_index path other good).2

  -- If clearing forgets every name, a bound name is found, and generated ids are acceptable: the rest
  -- of the application runs with the request's id in its state and in the context of its logs, the
  -- client receives that id whether the application answers or raises, nothing is left in the context
  -- afterwards, and what an earlier request left there makes no difference.
  pub request_id_middleware_isolates :
      (call_next : Request → C → Called A × C) (context earlier : C)
      → let id = request_id isalnum fresh header in
        let request : Request = record { request_id = some id; path = path } in
        let ended = request_id_middleware k isalnum fresh header path call_next context in
        ((logs : C) × (k.get "request_id" logs ≡ some id)
          × (ended.0 ≡ tagged id (call_next request logs).0))
        × (sent_id str_index request ended.0 ≡ some id)
        × ((name : String) → k.get name ended.1 ≡ none)
        × (ended ≡ request_id_middleware k isalnum fresh header path call_next earlier)
  unfolding request_id_middleware bind_request clear_request
  request_id_middleware_isolates call_next context earlier =
      let id = request_id isalnum fresh header in
      let request : Request = record { request_id = some id; path = path } in
      let logs = bind_request k id context in
      (
        (logs, laws.finds "request_id" id (k.clear_contextvars context), refl),
        sent_id-tagged (call_next request logs).0,
        λ name. laws.forgets name (call_next request logs).1,
        ap
            (λ c. (
              tagged id (call_next request (k.bind_contextvars "request_id" id c)).0,
              k.clear_contextvars (call_next request (k.bind_contextvars "request_id" id c)).1,
            ))
            (laws.clears context earlier),
      )
