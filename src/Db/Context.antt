-- ===== src/Db/Context.antt =====
-- The tenant context of `app/db/rls.py`: one explicit transaction with the caller bound to it.
use as_baptist_api.Prelude.{ℕ, Bool, true, false, Option, none, some}
use as_baptist_api.Db.Rows.{Db}
use as_baptist_api.Db.Statements.{
  Caller, database, runtime_error, invalid_text, Result, ok, err, Tx, Exec,
}
use as_baptist_api.Db.Rls.{
  UuidText, RequestContext, AppSettings, current_tenant_id, current_actor_id, current_role,
  nullif_empty,
}

-- A database session between transactions: the committed tables, its settings, and whether the
-- caller already holds a transaction open.
pub record Session : Type 0 where
  pub db : Db
  pub settings : AppSettings
  pub in_transaction : Bool
  pub dispatches : ℕ

-- The values that the three calls of `set_config` assign.
unfoldable pub set_config : UuidText → RequestContext → AppSettings → AppSettings
set_config u ctx s = record s {
  tenant_id = some (u.to_text ctx.tenant_id);
  actor_id = some (u.to_text ctx.actor_id);
  role = some ctx.role;
}

-- The settings within a transaction: what `current_setting` reads, and what a commit leaves.
pub record OpenSettings : Type 0 where
  pub current : AppSettings
  pub at_commit : AppSettings

-- `set_config(…, is_local)`: a local assignment ends with the transaction, another one stays if it
-- commits.
unfoldable pub assign_settings : Bool → (AppSettings → AppSettings) → OpenSettings → OpenSettings
assign_settings true f o = record o { current = f o.current }
assign_settings false f o = record { current = f o.current; at_commit = f o.at_commit }

-- The settings that the transaction of a context runs under: every call says `true`.
unfoldable pub bind_settings : UuidText → RequestContext → AppSettings → OpenSettings
unfolding assign_settings set_config
bind_settings u ctx s =
    assign_settings true (set_config u ctx) (record { current = s; at_commit = s })

abbrev caller_from : Option (Option ℕ) → Option (Option ℕ) → AppSettings → Option Caller
caller_from none a s = none
caller_from (some t) none s = none
caller_from (some t) (some a) s = some (record {
  tenant = t;
  actor = a;
  role = current_role s;
  request_id = nullif_empty s.request_id;
})

-- What the functions of the schema `app` return under some settings; `none` where a cast fails.
unfoldable pub caller_of : UuidText → AppSettings → Option Caller
unfolding current_tenant_id current_actor_id current_role
caller_of u s = caller_from (current_tenant_id u s) (current_actor_id u s) s

-- The end of `async with session.begin()`: a return commits, unless the transaction was aborted; an
-- exception rolls back. A commit leaves the settings that were not local, a rollback the old ones.
unfoldable pub end_transaction :
    {A : Type 0} → Session → AppSettings → Result A × Tx → Result A × Session
end_transaction s at_commit (ok a, t) = (
  ok a,
  elim t.aborted [
    | true ↦ record s { dispatches = t.dispatches }
    | false ↦ record s { db = t.db; settings = at_commit; dispatches = t.dispatches }
  ],
)
end_transaction s at_commit (err e, t) = (err e, record s { dispatches = t.dispatches })

unfoldable pub begin_transaction :
    {A : Type 0} → Option Caller → AppSettings → Exec A → Session → Result A × Session
unfolding end_transaction
begin_transaction none at_commit body s = (err (database invalid_text), s)
begin_transaction (some c) at_commit body s =
    end_transaction s at_commit
      (body (record { caller = c; db = s.db; aborted = false; dispatches = s.dispatches }))

-- A session that already has an open transaction is refused.
unfoldable pub in_context :
    {A : Type 0} → Bool → Option Caller → AppSettings → Exec A → Session → Result A × Session
unfolding begin_transaction
in_context true c at_commit body s = (err runtime_error, s)
in_context false c at_commit body s = begin_transaction c at_commit body s

-- `tenant_context(session, ctx)` around a body.
unfoldable pub tenant_context :
    {A : Type 0} → UuidText → RequestContext → Exec A → Session → Result A × Session
unfolding in_context caller_of bind_settings
tenant_context u ctx body s =
    let bound_ = bind_settings u ctx s.settings in
    in_context s.in_transaction (caller_of u bound_.current) bound_.at_commit body s
