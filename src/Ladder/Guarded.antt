-- ===== src/Ladder/Guarded.antt =====
-- No outside work without clearance, and no trace of a refused request.
use as_baptist_api.Ladder.Outcome.{
  turned_away, broke_off, completed, replayed, Outcome, execute-Outcome, IsCleared,
}
use as_baptist_api.Db.{err, Failure, active, Tx, actor_role, Result, Db, Caller}
use as_baptist_api.Ladder.{has_key, execute, ExecuteResponse, Dispatch, ExecuteRequest, Env}
use as_baptist_api.Prelude.{inr, inl, [], where_rows, none, ◌⊎◌, ℕ, ◌+◌, ◌≡◌}
use mathlib.Core.Path.{ap, ◌∙◌}

module _ (env : Env) (q : ExecuteRequest) (dispatch : Dispatch) (c : Caller) (db : Db) (n : ℕ) where
  abbrev ended : Result ExecuteResponse × Tx
  ended = execute env q dispatch (active c db n)

  dispatched_cases :
      {p : Result ExecuteResponse × Tx}
      → Outcome env q dispatch c db n p
      → ((p.1.dispatches ≡ n) × (p.1.db ≡ db)) ⊎ (IsCleared env q c db × (p.1.dispatches ≡ n + 1))
  dispatched_cases (replayed a found same e) = inl (ap (λ x. x.1.dispatches) e, ap (λ x. x.1.db) e)
  dispatched_cases (turned_away (f, t, e, u)) =
      inl (ap (λ x. x.1.dispatches) e ∙ u.same_dispatches, ap (λ x. x.1.db) e ∙ u.same_db)
  dispatched_cases (completed x t role cleared returned bound known e) =
      inr (cleared, ap (λ x. x.1.dispatches) e)
  dispatched_cases (broke_off f t cleared caller more e) =
      inr (cleared, ap (λ x. x.1.dispatches) e ∙ more)

  -- A request that calls the dispatch calls it once, and only after it was cleared: a new key, one
  -- matching preview that has not expired, a price within the tolerance, a budget that accepts the
  -- price, and an admitted approval row. A request that does not call it leaves the tables alone.
  pub execute_guarded :
      ((ended.1.dispatches ≡ n) × (ended.1.db ≡ db))
      ⊎ (IsCleared env q c db × (ended.1.dispatches ≡ n + 1))
  execute_guarded = dispatched_cases (execute-Outcome env q dispatch c db n)

  unknown_role-cases :
      {p : Result ExecuteResponse × Tx}
      → Outcome env q dispatch c db n p
      → actor_role c.role ≡ none
      → where_rows (has_key c q.tenant_id q.idempotency_key) db.approvals ≡ []
      → (e : Failure) × (p.0 ≡ err e)
        × (((p.1.dispatches ≡ n) × (p.1.db ≡ db))
            ⊎ (IsCleared env q c db × (p.1.dispatches ≡ n + 1)))
  unknown_role-cases (replayed a found same e) unknown new = absurd (cc (found, new))
  unknown_role-cases (turned_away (f, t, e, u)) unknown new =
      (f, ap (λ x. x.0) e, dispatched_cases (turned_away (f, t, e, u)))
  unknown_role-cases (completed x t role cleared returned bound known e) unknown new =
      absurd (cc (known, unknown))
  unknown_role-cases (broke_off f t cleared caller more e) unknown new =
      (f, ap (λ x. x.0) e, dispatched_cases (broke_off f t cleared caller more e))

  -- Under a role that is no `actor_role` a new key never completes: the request ends in an error,
  -- either before the dispatch and with the tables untouched, or after it was cleared and the
  -- dispatch was called, since the audit card is the last step.
  pub unknown_role_never_completes :
      actor_role c.role ≡ none
      → where_rows (has_key c q.tenant_id q.idempotency_key) db.approvals ≡ []
      → (e : Failure) × (ended.0 ≡ err e)
        × (((ended.1.dispatches ≡ n) × (ended.1.db ≡ db))
            ⊎ (IsCleared env q c db × (ended.1.dispatches ≡ n + 1)))
  unknown_role_never_completes = unknown_role-cases (execute-Outcome env q dispatch c db n)
