-- ===== src/History/Steps.antt =====
-- Runs of requests, and what holds of the session after each.
use as_baptist_api.Prelude.{String, ℕ, List, [], ◌∷◌}
use as_baptist_api.Db.{UuidText, RequestContext, Session, Result, tenant_context}
use as_baptist_api.Ladder.{
  Codec, Env, Dispatch, ExecuteRequest, ExecuteResponse, execute, PreviewRequest, create_preview,
}
use as_baptist_api.Locations.{
  LocationCreate, create_location, LocationUpdate, update_location_route,
}
use as_baptist_api.Web.{Site, Incoming}
use as_baptist_api.History.Sound.{IsOutside}

-- An execution that a caller of a tenant asked for, and its answer.
pub record Event : Type 0 where
  pub codec : Codec
  pub tenant : ℕ
  pub request : ExecuteRequest
  pub answer : Result ExecuteResponse

-- The sessions that requests lead to, and the executions on the way, the last one first.
module _ (u : UuidText) where
  pub data Run (s : Session) : List Event → Session → Type 0 where
    start : Run s [] s
    executes :
        {es : List Event} {t : Session}
        → Run s es t
        → (ctx : RequestContext) (env : Env) (q : ExecuteRequest) (dispatch : Dispatch)
        → IsOutside dispatch
        → Run s
            (record {
              codec = env.codec;
              tenant = ctx.tenant_id;
              request = q;
              answer = (tenant_context u ctx (execute env q dispatch) t).0;
            }
              ∷ es)
            (tenant_context u ctx (execute env q dispatch) t).1
    quotes :
        {es : List Event} {t : Session}
        → Run s es t
        → (ctx : RequestContext) (env : Env) (q : PreviewRequest)
        → Run s es (tenant_context u ctx (create_preview env q) t).1
    adds_location :
        {es : List Event} {t : Session}
        → Run s es t
        → (ctx : RequestContext) (now id tenant : ℕ) (p : LocationCreate)
        → Run s es (tenant_context u ctx (create_location now id tenant p) t).1
    changes_location :
        {es : List Event} {t : Session}
        → Run s es t
        → (ctx : RequestContext) (w : Site) (req : Incoming) (now : ℕ) (slug : String)
        → (p : LocationUpdate)
        → Run s es (tenant_context u ctx (update_location_route w req ctx now slug p) t).1
