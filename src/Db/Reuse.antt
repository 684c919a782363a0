-- ===== src/Db/Reuse.antt =====
-- A session that serves one request after another.
use mathlib.Core.Path.{refl, ap, sym, ◌∙◌}
use as_baptist_api.Prelude.{◌≡◌, false}
use as_baptist_api.Db.Statements.{Failure, Result, ok, err, Tx, Exec}
use as_baptist_api.Db.Rls.{UuidText, RequestContext}
use as_baptist_api.Db.Context.{Session, caller_of, end_transaction, tenant_context}
use as_baptist_api.Db.Isolation.{
  bound, opened, tenant_context-end_transaction, tenant_context_commit,
}

end_transaction_result :
    {A : Type 0} (s : Session) (p : Result A × Tx) → (end_transaction s s.settings p).0 ≡ p.0
unfolding end_transaction
end_transaction_result s (ok a, t) = refl
end_transaction_result s (err e, t) = refl

failed_commit :
    {A : Type 0} (s : Session) (p : Result A × Tx) (f : Failure)
    → (end_transaction s s.settings p).0 ≡ err f
    → (end_transaction s s.settings p).1.db ≡ s.db
unfolding end_transaction
failed_commit s (ok a, t) f h = absurd (cc h)
failed_commit s (err e, t) f h = refl

-- A session is used for one request, and then for another of whatever tenant. After the first, outside
-- of any tenant context, the database functions return what they returned before it, so that no tenant,
-- actor or role stays bound. The second runs as its own caller, as if the first had bound nothing, on
-- the tables that the first left; and if the first ended in an error, those are the old ones.
pub tenant_context_leaves_nothing :
    {A B : Type 0} (u : UuidText) (ctx ctx' : RequestContext) (body : Exec A) (body' : Exec B)
    (s : Session)
    → s.in_transaction ≡ false
    → let first = tenant_context u ctx body s in
      (caller_of u first.1.settings ≡ caller_of u s.settings)
      × ((tenant_context u ctx' body' first.1).0
          ≡ (body' (record {
            caller = bound ctx' s.settings;
            db = first.1.db;
            aborted = false;
            dispatches = first.1.dispatches;
          })).0)
      × ((f : Failure) → first.0 ≡ err f → first.1.db ≡ s.db)
tenant_context_leaves_nothing {A} u ctx ctx' body body' s idle =
    let outcome = tenant_context_commit u ctx body s idle in
    (
      ap (caller_of u) outcome.1,
      ap (λ r. r.0) (tenant_context-end_transaction u ctx' body' first.1 outcome.2)
          ∙ end_transaction_result first.1 (body' (opened ctx' first.1))
          ∙ ap
              (λ settings.
                (body' (record {
                  caller = bound ctx' settings;
                  db = first.1.db;
                  aborted = false;
                  dispatches = first.1.dispatches;
                })).0)
              outcome.1,
      λ f failed.
          ap (λ r. r.1.db) ended
          ∙ failed_commit s (body (opened ctx s)) f (sym (ap (λ r. r.0) ended) ∙ failed),
    )
  where
    first : Result A × Session
    first = tenant_context u ctx body s

    ended : first ≡ end_transaction s s.settings (body (opened ctx s))
    ended = tenant_context-end_transaction u ctx body s idle
