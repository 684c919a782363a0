-- ===== src/Examples/Sessions.antt =====
-- The tenant context at a concrete request.
use as_baptist_api.Db.Reuse.{tenant_context_leaves_nothing}
use as_baptist_api.Db.{Failure, err}
use as_baptist_api.Db.Isolation.{caller_of-set_config, bound}
use mathlib.Core.Path.{refl}
use as_baptist_api.Db.{Approval}
use as_baptist_api.Ladder.{approval_row}
use as_baptist_api.Ladder.Isolated.{execute_isolated, foreign}
use as_baptist_api.Prelude.{[], ◌∷◌, where_rows}
use as_baptist_api.Examples.World.{queue, purchase, env}
use as_baptist_api.Examples.World.{unary_text}
use as_baptist_api.Examples.World.{world}
use as_baptist_api.Db.{tenant_context, set_config, AppSettings}
use as_baptist_api.Db.{RequestContext}
use as_baptist_api.Db.{Session}
use as_baptist_api.Db.{caller_of}
use as_baptist_api.Ladder.{execute}
use as_baptist_api.Prelude.{some, false, none, ◌≡◌}

abbrev ctx : RequestContext
ctx = record { tenant_id = 1; actor_id = 7; role = "as_admin" }

abbrev unset : AppSettings
unset = record { tenant_id = none; actor_id = none; role = none; request_id = none }

abbrev session : Session
session = record { db = world; settings = unset; in_transaction = false; dispatches = 0 }

caller_of-set_config_example :
    caller_of unary_text (set_config unary_text ctx unset) ≡ some (bound ctx unset)
caller_of-set_config_example = caller_of-set_config unary_text ctx unset

abbrev other_ctx : RequestContext
other_ctx = record { tenant_id = 2; actor_id = 8; role = "client_user" }

tenant_context_leaves_nothing_example :
    let body = execute env purchase queue in
    let first = tenant_context unary_text ctx body session in
    (caller_of unary_text first.1.settings ≡ caller_of unary_text unset)
    × ((tenant_context unary_text other_ctx body first.1).0
        ≡ (body (record {
          caller = bound other_ctx unset;
          db = first.1.db;
          aborted = false;
          dispatches = first.1.dispatches;
        })).0)
    × ((f : Failure) → first.0 ≡ err f → first.1.db ≡ world)
tenant_context_leaves_nothing_example =
    tenant_context_leaves_nothing unary_text ctx other_ctx (execute env purchase queue)
      (execute env purchase queue) session refl

-- The same session, where another tenant has an approval.
abbrev their_approval : Approval
their_approval = record (approval_row env (record purchase { tenant_id = 2 })) { id = 77 }

abbrev shared_session : Session
shared_session = record session { db = record world { approvals = their_approval ∷ [] } }

execute_isolated_example :
    let after = (tenant_context unary_text ctx (execute env purchase queue) shared_session).1 in
    where_rows (foreign (bound ctx unset)) after.db.approvals
    ≡ where_rows (foreign (bound ctx unset)) (their_approval ∷ [])
execute_isolated_example =
    execute_isolated unary_text ctx env purchase queue shared_session refl (λ db. refl)
