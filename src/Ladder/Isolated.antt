-- ===== src/Ladder/Isolated.antt =====
-- One tenant's executions and another tenant's approvals.
use mathlib.Core.Path.{refl, ap, ◌∙◌}
use mathlib.Core.Path.{refl}
use as_baptist_api.Prelude.{
  Bool-cases, inl, inr, if◌then◌else◌, ℕ, ◌≡◌, Bool, true, false, not, String, some, List, [], ◌∷◌,
  ==_refl, where_rows, update_rows, arith,
}
use as_baptist_api.Db.{
  Caller, Db, Approval, owned, Result, ok, err, Tx, RequestContext, UuidText, Session,
  tenant_context,
}
use as_baptist_api.Db.Isolation.{bound, opened, commits, tenant_context_commit}
use as_baptist_api.Ladder.{
  Env, ExecuteRequest, ExecuteResponse, Dispatch, execute, approval_row, is_approval, mark_executed,
}
use as_baptist_api.Ladder.Outcome.{
  Outcome, replayed, turned_away, completed, broke_off, execute-Outcome, outcome_db, approved_db,
}

-- An approval that is not the caller's tenant's.
abbrev pub foreign : Caller → Approval → Bool
foreign c a = not (owned c a.tenant_id)

-- A dispatch that leaves the approvals of other tenants alone.
abbrev pub KeepsForeign : Caller → Dispatch → Type 0
KeepsForeign c dispatch =
    (db : Db)
    → where_rows (foreign c) (dispatch db).1.approvals ≡ where_rows (foreign c) db.approvals

-- An update of rows outside a selection does not change the selection.
where_rows-update_rows :
    {A : Type 0} (p s : A → Bool) (f : A → A) (rows : List A)
    → ((x : A) → s x ≡ true → p x ≡ false)
    → ((x : A) → p (f x) ≡ p x)
    → where_rows p (update_rows s f rows) ≡ where_rows p rows
where_rows-update_rows p s f [] apart keeps = refl
where_rows-update_rows p s f (x ∷ rows) apart keeps =
    ground (arith, apart x, keeps x, where_rows-update_rows p s f rows apart keeps)

where_rows-skip :
    {A : Type 0} (p : A → Bool) (x : A) (rows : List A)
    → p x ≡ false
    → where_rows p (x ∷ rows) ≡ where_rows p rows
where_rows-skip p x rows h = rw h

module _ (env : Env) (q : ExecuteRequest) (dispatch : Dispatch) (c : Caller) (db : Db) (n : ℕ)
    (keeps : KeepsForeign c dispatch) where
  inserted_foreign :
      c.tenant ≡ some q.tenant_id
      → where_rows (foreign c) (approval_row env q ∷ db.approvals)
        ≡ where_rows (foreign c) db.approvals
  inserted_foreign mine =
      let owns : owned c q.tenant_id ≡ true = rw (mine, owned) (==_refl q.tenant_id) in
      where_rows-skip (foreign c) (approval_row env q) db.approvals (ap not owns)

  outcome_foreign :
      (x : String)
      → c.tenant ≡ some q.tenant_id
      → where_rows (foreign c) (outcome_db env q dispatch c db n x).approvals
        ≡ where_rows (foreign c) db.approvals
  outcome_foreign x mine =
      where_rows-update_rows (foreign c) (is_approval c env.new_id)
        (mark_executed env q.reprice_cost_usd x)
        (dispatch (approved_db env q dispatch c db n)).1.approvals (λ a h. ground (arith, h))
        (λ a. refl)
      ∙ keeps (approved_db env q dispatch c db n)
      ∙ inserted_foreign mine

  succeeded_foreign :
      {p : Result ExecuteResponse × Tx} {r : ExecuteResponse}
      → Outcome env q dispatch c db n p
      → p.0 ≡ ok r
      → where_rows (foreign c) p.1.db.approvals ≡ where_rows (foreign c) db.approvals
  succeeded_foreign (replayed a found same e) succeeded =
      ap (λ x. where_rows (foreign c) x.1.db.approvals) e
  succeeded_foreign (turned_away (f, t, e, u)) succeeded = absurd (cc (ap (λ x. x.0) e, succeeded))
  succeeded_foreign (completed x t role cleared returned mine known e) succeeded =
      ap (λ y. where_rows (foreign c) y.1.db.approvals) e
      ∙ outcome_foreign x cleared.admitted.own_tenant
  succeeded_foreign (broke_off f t cleared caller more e) succeeded =
      absurd (cc (ap (λ x. x.0) e, succeeded))

committed_foreign :
    (c : Caller) (db : Db) (r : Result ExecuteResponse) (t : Tx)
    → ((x : ExecuteResponse)
        → r ≡ ok x
        → where_rows (foreign c) t.db.approvals ≡ where_rows (foreign c) db.approvals)
    → where_rows (foreign c) (if commits (r, t) then t.db else db).approvals
      ≡ where_rows (foreign c) db.approvals
committed_foreign c db (ok x) t h = elim (Bool-cases t.aborted) [
  | inl failed ↦ rw failed
  | inr fine ↦ rw fine (h x refl)
]
committed_foreign c db (err e) t h = refl

-- Whatever becomes of an execution in a tenant context, on a session without an open transaction,
-- the approvals of every other tenant are the committed ones afterwards, if the dispatch leaves
-- them alone.
pub execute_isolated :
    (u : UuidText) (ctx : RequestContext) (env : Env) (q : ExecuteRequest) (dispatch : Dispatch)
    (s : Session)
    → s.in_transaction ≡ false
    → KeepsForeign (bound ctx s.settings) dispatch
    → let after = (tenant_context u ctx (execute env q dispatch) s).1 in
      where_rows (foreign (bound ctx s.settings)) after.db.approvals
      ≡ where_rows (foreign (bound ctx s.settings)) s.db.approvals
execute_isolated u ctx env q dispatch s idle keeps =
    let c = bound ctx s.settings in
    let ended = execute env q dispatch (opened ctx s) in
    let outcome = tenant_context_commit u ctx (execute env q dispatch) s idle in
    ap (λ (db : Db). where_rows (foreign c) db.approvals) outcome.3
    ∙ committed_foreign c s.db ended.0 ended.1 (λ r succeeded.
      succeeded_foreign env q dispatch c s.db s.dispatches keeps
        (execute-Outcome env q dispatch c s.db s.dispatches) succeeded)
