-- ===== src/History/Refines.antt =====
-- The tables keep the promise of the idempotency keys.
use as_baptist_api.Locations.{create_location, update_location_route}
use as_baptist_api.History.Patches.{update_location_route-Keeps}
use as_baptist_api.History.Kept.{create_location-Keeps, create_preview-Keeps, kept_view}
use as_baptist_api.History.Invariant.{run-IsSound}
use as_baptist_api.Problem.{duplicate_idempotency_key, from_code}
use as_baptist_api.History.Lookup.{is_keyed, existing_if, found_some, found_none, receipts_of}
use as_baptist_api.History.Steps.{changes_location, adds_location, quotes, executes, Run, Event}
use as_baptist_api.Ladder.Replay.{is_approval-approval_row, replays_executed, executed_row}
use as_baptist_api.History.Served.{
  execute-Served, committed, rolled_back, completed_db, as_before, Served,
}
use as_baptist_api.Ladder.Outcome.{execute_found, approved_db, IsCleared}
use as_baptist_api.History.Sound.{IsOutside, IsSound}
use mathlib.Core.Path.{subst, ap₂}
use as_baptist_api.History.Steps.{start}
use as_baptist_api.Prelude.{
  arith, ◌==◌, Option-cases, inr, inl, ℕ, ◌≡◌, refl, sym, ap, ◌∙◌, Bool, true, false, String, none,
  some, List, [], ◌∷◌, find_row, where_rows, Bool-cases, if◌then◌else◌,
}
use mathlib.Core.Path.{ap₂}
use as_baptist_api.Db.{
  problem, active, err, Caller, ok, end_transaction, tenant_context, Result, ActorRole, Session,
  UuidText, Approval, RequestContext,
}
use as_baptist_api.Db.Isolation.{tenant_context-end_transaction, bound}
use as_baptist_api.Ladder.{
  create_preview, same_preview, approval_row, executed_response, execute, ExecuteResponse, Dispatch,
  ExecuteRequest, Env, ExistingApproval, existing_of, has_key,
}
use as_baptist_api.History.Strangers.{foreign-Allowed}
use as_baptist_api.History.Approvals.{settle_fresh, settle}
use as_baptist_api.History.Receipts.{
  one_receipt, Occurs, then_, conflicts, replays, nothing, Follows, for_key, fulfils, refuses,
  Allowed, Receipts,
}

answered : Bool → Approval → Result ExecuteResponse
answered b a =
    if b then ok (existing_of a).response else err (problem (from_code duplicate_idempotency_key))

ended_answered :
    (s : Session) (c : Caller) (b : Bool) (a : Approval)
    → end_transaction s s.settings (answered b a, active c s.db s.dispatches) ≡ (answered b a, s)
unfolding end_transaction answered
ended_answered s c true a = refl
ended_answered s c false a = refl

module _ (u : UuidText) (ctx : RequestContext) (env : Env) (q : ExecuteRequest)
    (dispatch : Dispatch) (s : Session) (own_tenant : q.tenant_id ≡ ctx.tenant_id)
    (h : IsSound s) where
  IsAllowed : Result ExecuteResponse × Session → Type 0
  IsAllowed p =
      Allowed env.codec ctx.tenant_id q (receipts_of s.db.approvals) (receipts_of p.1.db.approvals)
        p.0

  -- The tables after a completed execution: one more approval, and the others as they were.
  committed_rows :
      (x : String) (t : ℕ) (role : ActorRole)
      → IsOutside dispatch
      → IsCleared env q (bound ctx s.settings) s.db
      → (completed_db env q dispatch (bound ctx s.settings) s x t role).approvals
        ≡ executed_row env q (bound ctx s.settings) x ∷ s.db.approvals
  committed_rows x t role outside cleared =
      let c = bound ctx s.settings in
      ap (settle c env.new_id env q.reprice_cost_usd x)
        (outside.keeps_approvals (approved_db env q dispatch c s.db s.dispatches))
      ∙ ap₂
          (λ (b : Bool) (l : List Approval).
            (if b then executed_row env q c x else approval_row env q) ∷ l)
          (is_approval-approval_row env q c cleared.admitted.own_tenant)
          (settle_fresh c env.new_id env q.reprice_cost_usd x (approval_row env q) s.db.approvals
            refl cleared.admitted.unclashed)

  ended_found :
      (a : Approval) {b : Bool}
      → where_rows (has_key (bound ctx s.settings) q.tenant_id q.idempotency_key) s.db.approvals
        ≡ a ∷ []
      → same_preview a.cost_preview_id q.preview_id ≡ b
      → tenant_context u ctx (execute env q dispatch) s ≡ (answered b a, s)
  unfolding answered
  ended_found a found tested =
      let c = bound ctx s.settings in
      tenant_context-end_transaction u ctx (execute env q dispatch) s h.idle
      ∙ ap (end_transaction s s.settings) (execute_found env q dispatch c s.db s.dispatches a found)
      ∙ ap (λ x. end_transaction s s.settings (answered x a, active c s.db s.dispatches)) tested
      ∙ ended_answered s c _ a

  seen-Allowed :
      (e : ExistingApproval)
      → receipts_of s.db.approvals q.tenant_id q.idempotency_key ≡ some e
      → IsAllowed (tenant_context u ctx (execute env q dispatch) s)
  unfolding IsAllowed answered
  seen-Allowed e held =
      let c = bound ctx s.settings in
      let (a, same, found) =
        found_some ctx s.settings q.tenant_id q.idempotency_key own_tenant s.db.approvals e
          h.distinct held in
      elim (Bool-cases (same_preview a.cost_preview_id q.preview_id)) [
        | inl matching ↦
            replays e held (rw same matching)
              (ap (λ p. receipts_of p.1.db.approvals) (ended_found a found matching))
              (ap (λ p. p.0) (ended_found a found matching)
                ∙ ap (λ (x : ExistingApproval). ok x.response) (sym same))
        | inr other ↦
            conflicts e held (rw same other)
              (ap (λ p. receipts_of p.1.db.approvals) (ended_found a found other))
              (ap (λ p. p.0) (ended_found a found other))
      ]

  new-Allowed :
      {p : Result ExecuteResponse × Session}
      → IsOutside dispatch
      → receipts_of s.db.approvals q.tenant_id q.idempotency_key ≡ none
      → Served env q dispatch (bound ctx s.settings) s p
      → IsAllowed p
  unfolding IsAllowed
  new-Allowed outside new (as_before a found same e) = absurd (
      cc (
        found,
        found_none ctx s.settings q.tenant_id q.idempotency_key own_tenant s.db.approvals new,
      ))
  new-Allowed outside new (rolled_back f n more e) =
      refuses f new (ap (λ p. receipts_of p.1.db.approvals) e) (ap (λ p. p.0) e)
  new-Allowed outside new (committed x t role cleared returned mine e) =
      fulfils (existing_of (executed_row env q (bound ctx s.settings) x))
        (executed_response env.new_id q.reprice_cost_usd x) new refl
        (replays_executed env q dispatch (bound ctx s.settings) s.db s.dispatches x refl)
        (λ tenant key.
          ap (λ p. receipts_of p.1.db.approvals tenant key) e
          ∙ ap (λ l. receipts_of l tenant key) (committed_rows x t role outside cleared)
          ∙ existing_if (executed_row env q (bound ctx s.settings) x)
              (find_row (is_keyed tenant key) s.db.approvals) (for_key q tenant key))
        (ap (λ p. p.0) e)

  execute-IsAllowed :
      IsOutside dispatch → IsAllowed (tenant_context u ctx (execute env q dispatch) s)
  execute-IsAllowed outside =
      elim (Option-cases (receipts_of s.db.approvals q.tenant_id q.idempotency_key)) [
        | inl new ↦ new-Allowed outside new (execute-Served u ctx env q dispatch s h.idle)
        | inr (e, held) ↦ seen-Allowed e held
      ]

any-Allowed :
    (u : UuidText) (ctx : RequestContext) (env : Env) (q : ExecuteRequest) (dispatch : Dispatch)
    (s : Session)
    → IsSound s
    → IsOutside dispatch
    → let after = tenant_context u ctx (execute env q dispatch) s in
      Allowed env.codec ctx.tenant_id q
        (receipts_of s.db.approvals)
        (receipts_of after.1.db.approvals)
        after.0
unfolding IsAllowed
any-Allowed u ctx env q dispatch s h outside = elim (Bool-cases (q.tenant_id == ctx.tenant_id)) [
  | inl own ↦ execute-IsAllowed u ctx env q dispatch s (ground (arith, own)) h outside
  | inr other ↦
      foreign-Allowed u ctx env q dispatch s (λ e. ground (arith, e, other))
        (execute-Served u ctx env q dispatch s h.idle)
]

kept-Follows :
    {before between after : Receipts} {es : List Event}
    → Follows before es between
    → after ≡ between
    → Follows before es after
kept-Follows {before = before} {es = es} history same =
    subst (λ r. Follows before es r) (sym same) history

-- Whatever quotes, executions, additions of a location and changes of one are served from a sound
-- session, in whatever order, for callers of whatever tenant, the answers of the executions are those
-- that the promise of the idempotency keys allows, from the receipts that the first tables stand for
-- to those that the last ones stand for. The outside work of the executions is taken to leave the
-- approvals alone and to take no audit card away.
pub run-Follows :
    (u : UuidText) (s t : Session) (es : List Event)
    → IsSound s
    → Run u s es t
    → Follows (receipts_of s.db.approvals) es (receipts_of t.db.approvals)
run-Follows u s _ _ h start = nothing
run-Follows u s _ _ h (executes before ctx env q dispatch outside) =
    then_ (run-Follows u s _ _ h before) _
      (any-Allowed u ctx env q dispatch _ (run-IsSound u s _ _ h before) outside)
run-Follows u s _ _ h (quotes before ctx env q) = kept-Follows (run-Follows u s _ _ h before) (
    ap (λ v. receipts_of v.0)
      (kept_view u ctx (create_preview env q) _ (create_preview-Keeps env q)
        (run-IsSound u s _ _ h before).idle))
run-Follows u s _ _ h (adds_location before ctx now id tenant p) =
    kept-Follows (run-Follows u s _ _ h before) (
      ap (λ v. receipts_of v.0)
        (kept_view u ctx (create_location now id tenant p) _ (create_location-Keeps now id tenant p)
          (run-IsSound u s _ _ h before).idle))
run-Follows u s _ _ h (changes_location before ctx w req now slug p) =
    kept-Follows (run-Follows u s _ _ h before) (
      ap (λ v. receipts_of v.0)
        (kept_view u ctx (update_location_route w req ctx now slug p) _
          (update_location_route-Keeps w req ctx now slug p) (run-IsSound u s _ _ h before).idle))

-- In any history of quotes, executions, additions of a location and changes of one that starts from a
-- sound session, an idempotency key of a tenant stands for one approval: any two executions that
-- succeed under it, whatever of these was asked in between and whatever else they ask, name the same
-- approval. The outside work of the executions is taken to leave the approvals alone and to take no
-- audit card away.
pub run_one_approval :
    (u : UuidText) (s t : Session) (es : List Event) (e e' : Event) (r r' : ExecuteResponse)
    → IsSound s
    → Run u s es t
    → Occurs e es
    → Occurs e' es
    → e.answer ≡ ok r
    → e'.answer ≡ ok r'
    → e'.request.tenant_id ≡ e.request.tenant_id
    → e'.request.idempotency_key ≡ e.request.idempotency_key
    → r'.approval_id ≡ r.approval_id
run_one_approval u s t es e e' r r' h run o o' succeeded succeeded' tenant key =
    one_receipt e e' r r' (run-Follows u s t es h run) o o' succeeded succeeded' tenant key
