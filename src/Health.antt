-- ===== src/Health.antt =====
-- `app/routers/health.py`, and `DatabaseRuntime.check_ready` of `app/db/session.py`.
use as_baptist_api.Prelude.{if◌then◌else◌, ℕ, Bool, true, false, String, Option, none, some}
use as_baptist_api.Problem.{
  ApiProblem, Overrides, no_overrides, api_problem, internal_error, Request, JsonResponse, handle,
  problem,
}
use as_baptist_api.Db.{Result, ok, err}
pub mod Ready

pub record HealthResponse : Type 0 where
  pub status : String

pub record ReadyResponse : Type 0 where
  pub status : String

-- `GET /v1/health`.
abbrev pub health : HealthResponse
health = record { status = "ok" }

-- What becomes of `select 1` within two seconds: an answer, or an exception.
pub data Ping : Type 0 where
  answered sqlalchemy_error timeout_error os_error other_error : Ping

-- What a probe does: it returns, or it raises.
pub data Probed : Type 0 where
  returned : Bool → Probed
  raised : Probed

unfoldable pub check_ready : Ping → Probed
check_ready answered = returned true
check_ready sqlalchemy_error = returned false
check_ready timeout_error = returned false
check_ready os_error = returned false
check_ready other_error = raised

abbrev pub unavailable_readiness_probe : Probed
unavailable_readiness_probe = returned false

-- `app.state.readiness_probe`: not set, no function, the database's check that `create_app` sets, or
-- another function that was set in its place, by what it does when it is called.
pub data StateProbe : Type 0 where
  unset not_callable database_check : StateProbe
  other_check : Probed → StateProbe

-- The probe of `get_readiness_probe`, called.
unfoldable pub readiness_probe : StateProbe → Ping → Probed
unfolding check_ready
readiness_probe unset ping = unavailable_readiness_probe
readiness_probe not_callable ping = unavailable_readiness_probe
readiness_probe database_check ping = check_ready ping
readiness_probe (other_check probed) ping = probed

-- `except Exception: is_ready = False`.
abbrev pub is_ready : Probed → Bool
is_ready (returned b) = b
is_ready raised = false

abbrev pub not_ready : ApiProblem
not_ready = api_problem internal_error (record no_overrides {
  status = some 503;
  title = some "Service unavailable";
  detail = some "The database is not ready.";
})

-- What the client of `GET /v1/ready` gets: the answer, or the problem response of the handler.
pub data ReadyReply : Type 0 where
  ready_ : ReadyResponse → ReadyReply
  failed : JsonResponse → ReadyReply

unfoldable pub ready : (ℕ → String) → Request → Probed → ReadyReply
unfolding handle api_problem
ready str_index r probed =
    if is_ready probed
    then ready_ (record { status = "ready" })
    else failed (handle str_index r (problem not_ready))
