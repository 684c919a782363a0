-- ===== src/Web/Middleware.antt =====
-- `request_id_middleware` of `app/main.py`, with `bind_request` and `clear_request` of
-- `app/core/logging.py`. The context of the logs is structlog's: a parameter.
use Prim.Native.Char.{Char}
use as_baptist_api.Prelude.{ℕ, Bool, String, Option, some}
use as_baptist_api.Problem.{Request, handle, other}
use as_baptist_api.Web.Headers.{request_id}

-- `clear_contextvars`, `bind_contextvars` for one name, and what a log line finds under a name.
pub record ContextVars (C : Type 0) : Type 0 where
  pub clear_contextvars : C → C
  pub bind_contextvars : String → String → C → C
  pub get : String → C → Option String

pub record Response (A : Type 0) : Type 0 where
  pub payload : A
  pub x_request_id : Option String

-- What `await call_next(request)` ends with. The handlers of an `ApiProblem` and of a validation error
-- stand inside it, so that what is raised is any other exception.
pub data Called (A : Type 0) : Type 0 where
  returned : Response A → Called A
  raised : Called A

abbrev pub tagged : {A : Type 0} → String → Called A → Called A
tagged id (returned response) = returned (record response { x_request_id = some id })
tagged id raised = raised

module _ {C : Type 0} (k : ContextVars C) where
  unfoldable pub bind_request : String → C → C
  bind_request id context = k.bind_contextvars "request_id" id (k.clear_contextvars context)

  unfoldable pub clear_request : C → C
  clear_request context = k.clear_contextvars context

  -- The request as its state has it, and the answer of the rest of the application, which may change
  -- the context of the logs.
  unfoldable pub request_id_middleware :
      {A : Type 0}
      → (Char → Bool)
      → String
      → Option String
      → String
      → (Request → C → Called A × C)
      → C
      → Called A × C
  unfolding bind_request clear_request
  request_id_middleware isalnum fresh header path call_next context =
      let id = request_id isalnum fresh header in
      let (answer, left) =
        call_next (record { request_id = some id; path = path }) (bind_request id context) in
      (tagged id answer, clear_request left)

-- The `X-Request-ID` that the client receives. What the middleware raises goes to the handler of
-- unhandled exceptions, which reads the state of the same request.
unfoldable pub sent_id : {A : Type 0} → (ℕ → String) → Request → Called A → Option String
unfolding handle
sent_id str_index request (returned response) = response.x_request_id
sent_id str_index request raised = some (handle str_index request other).x_request_id
