-- ===== src/History/Served.antt =====
-- What one execution leaves of a session, once its tenant context has ended.
use as_baptist_api.Prelude.{
  ℕ, ◌+◌, ◌≤◌, ◌≡◌, sym, ap, true, false, String, some, [], ◌∷◌, arith, where_rows,
}
use mathlib.Core.Path.{subst}
use as_baptist_api.Db.{
  Caller, Db, Approval, ActorRole, UuidText, RequestContext, Session, Result, ok, err, Failure, Tx,
  tenant_context, end_transaction,
}
use as_baptist_api.Db.Isolation.{bound, tenant_context-end_transaction}
use as_baptist_api.Audit.{card_row}
use as_baptist_api.Ladder.{
  Env, Dispatch, ExecuteRequest, ExecuteResponse, execute, executed_card, executed_response,
  existing_of, same_preview, has_key,
}
use as_baptist_api.Ladder.CarryOut.{with_card}
use as_baptist_api.Ladder.Outcome.{
  IsCleared, approved_db, outcome_db, Outcome, replayed, turned_away, completed, broke_off,
  execute-Outcome,
}

module _ (env : Env) (q : ExecuteRequest) (dispatch : Dispatch) (c : Caller) (s : Session) where
  -- The tables of an execution that was completed, with its audit card.
  abbrev pub completed_db : String → ℕ → ActorRole → Db
  completed_db x t role =
      let db = outcome_db env q dispatch c s.db s.dispatches x in
      with_card (card_row env.now (executed_card env q env.new_id) t role c db) db

  pub data Served (after : Result ExecuteResponse × Session) : Type 0 where
    as_before :
        (a : Approval)
        → where_rows (has_key c q.tenant_id q.idempotency_key) s.db.approvals ≡ a ∷ []
        → same_preview a.cost_preview_id q.preview_id ≡ true
        → after ≡ (ok (existing_of a).response, s)
        → Served after
    rolled_back :
        (e : Failure) (n : ℕ)
        → s.dispatches ≤ n
        → after ≡ (err e, record s { dispatches = n })
        → Served after
    committed :
        (x : String) (t : ℕ) (role : ActorRole)
        → IsCleared env q c s.db
        → (dispatch (approved_db env q dispatch c s.db s.dispatches)).0 ≡ ok x
        → c.tenant ≡ some t
        → after ≡ (
          ok (executed_response env.new_id q.reprice_cost_usd x),
          record s { db = completed_db x t role; dispatches = s.dispatches + 1 },
        )
        → Served after

  ended-Served :
      {p : Result ExecuteResponse × Tx}
      → Outcome env q dispatch c s.db s.dispatches p
      → Served (end_transaction s s.settings p)
  unfolding end_transaction
  ended-Served (replayed a found same e) =
      as_before a found same (ap (end_transaction s s.settings) e)
  ended-Served (turned_away (f, t, e, u)) =
      rolled_back f t.dispatches (omega (arith, u.same_dispatches))
        (ap (end_transaction s s.settings) e)
  ended-Served (completed x t role cleared returned mine known e) =
      committed x t role cleared returned mine (ap (end_transaction s s.settings) e)
  ended-Served (broke_off f t cleared caller more e) =
      rolled_back f t.dispatches (omega (arith, more)) (ap (end_transaction s s.settings) e)

pub execute-Served :
    (u : UuidText) (ctx : RequestContext) (env : Env) (q : ExecuteRequest) (dispatch : Dispatch)
    (s : Session)
    → s.in_transaction ≡ false
    → Served env q dispatch
        (bound ctx s.settings)
        s
        (tenant_context u ctx (execute env q dispatch) s)
execute-Served u ctx env q dispatch s idle =
    let c = bound ctx s.settings in
    subst (Served env q dispatch c s)
      (sym (tenant_context-end_transaction u ctx (execute env q dispatch) s idle))
      (ended-Served env q dispatch c s (execute-Outcome env q dispatch c s.db s.dispatches))
