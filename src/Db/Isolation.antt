-- ===== src/Db/Isolation.antt =====
-- The tenant context binds exactly the caller's identity, and commits only what it should.
use as_baptist_api.Prelude.{
  ℕ, ◌≡◌, refl, ◌≢◌, Bool, true, false, String, some, arith, str_eq, eq_iff, if◌then◌else◌,
}
use as_baptist_api.Db.Statements.{Caller, Result, ok, err, runtime_error, Tx, Exec}
use as_baptist_api.Db.Rls.{
  UuidText, RequestContext, AppSettings, nullif_empty, current_tenant_id, current_actor_id,
  current_role, cast_uuid,
}
use mathlib.Core.Path.{ap, ◌∙◌}
use as_baptist_api.Db.Context.{
  assign_settings, bind_settings, Session, set_config, caller_of, in_context, end_transaction,
  begin_transaction, tenant_context,
}

nullif_empty-some : (t : String) → t ≢ "" → nullif_empty (some t) ≡ some t
nullif_empty-some t h = ground (arith, eq_iff t "")

cast_uuid-to_text :
    (u : UuidText) (n : ℕ) → cast_uuid u (nullif_empty (some (u.to_text n))) ≡ some (some n)
cast_uuid-to_text u n =
    rw (nullif_empty-some (u.to_text n) (u.to_text-ne-empty n))
      (rw (u.of_text-to_text n, cast_uuid))

-- The identity that the context binds, as the database reads it back.
abbrev pub bound : RequestContext → AppSettings → Caller
bound ctx s = record {
  tenant = some ctx.tenant_id;
  actor = some ctx.actor_id;
  role = if str_eq ctx.role "" then "none" else ctx.role;
  request_id = nullif_empty s.request_id;
}

current_role-set_config :
    (u : UuidText) (ctx : RequestContext) (s : AppSettings)
    → current_role (set_config u ctx s) ≡ (if str_eq ctx.role "" then "none" else ctx.role)
unfolding current_role set_config
current_role-set_config u ctx s = ground arith

current_tenant_id-set_config :
    (u : UuidText) (ctx : RequestContext) (s : AppSettings)
    → current_tenant_id u (set_config u ctx s) ≡ some (some ctx.tenant_id)
unfolding current_tenant_id set_config
current_tenant_id-set_config u ctx s = cast_uuid-to_text u ctx.tenant_id

current_actor_id-set_config :
    (u : UuidText) (ctx : RequestContext) (s : AppSettings)
    → current_actor_id u (set_config u ctx s) ≡ some (some ctx.actor_id)
unfolding current_actor_id set_config
current_actor_id-set_config u ctx s = cast_uuid-to_text u ctx.actor_id

request_id-set_config :
    (u : UuidText) (ctx : RequestContext) (s : AppSettings)
    → (set_config u ctx s).request_id ≡ s.request_id
unfolding set_config
request_id-set_config u ctx s = refl

-- Under the settings of a tenant context, the database functions return exactly the tenant, the
-- actor and the role of the request, an empty role as `none`.
pub caller_of-set_config :
    (u : UuidText) (ctx : RequestContext) (s : AppSettings)
    → caller_of u (set_config u ctx s) ≡ some (bound ctx s)
caller_of-set_config u ctx s =
    unfold caller_of in
    simp (
      current_tenant_id-set_config u ctx s,
      current_actor_id-set_config u ctx s,
      current_role-set_config u ctx s,
      request_id-set_config u ctx s,
    )

-- The transaction that a body sees when the context opens it.
abbrev pub opened : RequestContext → Session → Tx
opened ctx s = record {
  caller = bound ctx s.settings;
  db = s.db;
  aborted = false;
  dispatches = s.dispatches;
}

pub tenant_context-end_transaction :
    {A : Type 0} (u : UuidText) (ctx : RequestContext) (body : Exec A) (s : Session)
    → s.in_transaction ≡ false
    → tenant_context u ctx body s ≡ end_transaction s s.settings (body (opened ctx s))
unfolding tenant_context begin_transaction bind_settings assign_settings
tenant_context-end_transaction u ctx body s idle =
    ap (λ b. in_context b (caller_of u (set_config u ctx s.settings)) s.settings body s) idle
    ∙ ap (λ c. begin_transaction c s.settings body s) (caller_of-set_config u ctx s.settings)

-- A session that already holds a transaction is refused, and nothing runs.
pub tenant_context_nested :
    {A : Type 0} (u : UuidText) (ctx : RequestContext) (body : Exec A) (s : Session)
    → s.in_transaction ≡ true
    → tenant_context u ctx body s ≡ (err runtime_error, s)
unfolding tenant_context bind_settings assign_settings
tenant_context_nested u ctx body s busy =
    ap (λ b. in_context b (caller_of u (set_config u ctx s.settings)) s.settings body s) busy

-- Whether the tables may change: the body returned, and no statement of it failed.
abbrev pub commits : {A : Type 0} → Result A × Tx → Bool
commits (ok a, t) = if t.aborted then false else true
commits (err e, t) = false

end_transaction_lem :
    {A : Type 0} (s : Session) (r : Result A) (t : Tx)
    → let (r', s') = end_transaction s s.settings (r, t) in
      (r' ≡ r)
      × (s'.settings ≡ s.settings)
      × (s'.in_transaction ≡ s.in_transaction)
      × (s'.db ≡ (if commits (r, t) then t.db else s.db))
unfolding end_transaction
end_transaction_lem s (ok a) t = ground arith
end_transaction_lem s (err e) t = ground arith

-- On a session without an open transaction, a tenant context runs its body as the caller of the
-- request. It returns what the body returns, leaves the session's settings as they were, and the
-- committed tables are the body's if it returned from a transaction that no statement has aborted,
-- and otherwise the old ones.
pub tenant_context_commit :
    {A : Type 0} (u : UuidText) (ctx : RequestContext) (body : Exec A) (s : Session)
    → s.in_transaction ≡ false
    → let ended = body (opened ctx s) in
      let after = tenant_context u ctx body s in
      (after.0 ≡ ended.0)
      × (after.1.settings ≡ s.settings)
      × (after.1.in_transaction ≡ false)
      × (after.1.db ≡ (if commits ended then ended.1.db else s.db))
tenant_context_commit {A} u ctx body s idle =
    rw (tenant_context-end_transaction u ctx body s idle)
      (let l = end_transaction_lem s ended.0 ended.1 in (l.0, l.1, l.2 ∙ idle, l.3))
  where
    ended : Result A × Tx
    ended = body (opened ctx s)
