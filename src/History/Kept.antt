-- ===== src/History/Kept.antt =====
-- Requests that leave the approval ladder alone: quotes and added locations.
use as_baptist_api.Prelude.Int.{ℤ}
use as_baptist_api.Locations.{
  location_row, is_listing_type, is_fleet, given, LocationCreate, insert_location, create_location,
  insert_location_row,
}
use as_baptist_api.Prelude.{
  none, ◌&&◌, Option, Bool, ℕ, ◌≤◌, ◌≡◌, refl, sym, ap, ◌∙◌, true, false, not, some, List, [], ◌∷◌,
  arith, length,
}
use mathlib.Core.Path.{subst}
use as_baptist_api.Db.{
  ◌>>=◌, statement_error, pure, one_or_none, raise_if, CostBudget, run, insufficient_privilege,
  fail, owned, admitted, refused, Sql, Admission, Caller, Db, Approval, AuditCard, CostPreview,
  Location, UuidText, RequestContext, Session, Result, ok, err, Exec, tenant_context,
  end_transaction,
}
use as_baptist_api.Db.Isolation.{opened, tenant_context-end_transaction}
use as_baptist_api.Db.Frame.{
  Keeps, Keeping, if-Keeping, run-Keeps, bind-Keeps, pure-Keeps, one_or_none-Keeps, raise_if-Keeps,
}
use as_baptist_api.Ladder.{
  Gate, budget_gates, select_spend, budget_configured, select_budgets, preview_response, Env,
  PreviewRequest, create_preview, insert_preview, insert_preview_row, evaluate_gates, gates_for,
  preview_row, checked_insert,
}
use as_baptist_api.History.Approvals.{IsDistinct}
use as_baptist_api.History.Sound.{IsSound, AreAudited}

-- The part of the tables that the approval ladder promises something about.
abbrev pub ladder_view : Db → List Approval × List AuditCard
ladder_view db = (db.approvals, db.cards)

kept-IsSound :
    (s s' : Session)
    → ladder_view s'.db ≡ ladder_view s.db
    → s'.dispatches ≡ s.dispatches
    → s'.in_transaction ≡ s.in_transaction
    → IsSound s
    → IsSound s'
kept-IsSound s s' same calls idle h = record {
  idle = idle ∙ h.idle;
  distinct = subst IsDistinct (ap (λ v. v.0) (sym same)) h.distinct;
  audited = subst (λ v. AreAudited v.1 v.0) (sym same) h.audited;
  paid = subst (λ n. n ≤ s'.dispatches) (ap (λ v. length v.0) (sym same)) (rw calls h.paid);
}

-- The end of a transaction whose body left the ladder alone.
ended_view :
    {A : Type 0} (s : Session) (r : Result A) (c : Caller) (db : Db) (aborted : Bool) (n : ℕ)
    → IsSound s
    → ladder_view db ≡ ladder_view s.db
    → n ≡ s.dispatches
    → IsSound
        (end_transaction s s.settings
          (r, record { caller = c; db = db; aborted = aborted; dispatches = n })).1
unfolding end_transaction
ended_view s (ok a) c db true n h same calls =
    kept-IsSound s (record s { dispatches = n }) refl calls refl h
ended_view s (ok a) c db false n h same calls =
    kept-IsSound s (record s { db = db; dispatches = n }) same calls refl h
ended_view s (err e) c db aborted n h same calls =
    kept-IsSound s (record s { dispatches = n }) refl calls refl h

ended_same_view :
    {A : Type 0} (s : Session) (r : Result A) (c : Caller) (db : Db) (aborted : Bool) (n : ℕ)
    → ladder_view db ≡ ladder_view s.db
    → ladder_view
        (end_transaction s s.settings
          (r, record { caller = c; db = db; aborted = aborted; dispatches = n })).1.db
      ≡ ladder_view s.db
unfolding end_transaction
ended_same_view s (ok a) c db true n same = refl
ended_same_view s (ok a) c db false n same = same
ended_same_view s (err e) c db aborted n same = refl

module _ {A : Type 0} (u : UuidText) (ctx : RequestContext) (body : Exec A) (s : Session)
    (keeps : Keeps ladder_view body) where
  pub kept-context-IsSound : IsSound s → IsSound (tenant_context u ctx body s).1
  kept-context-IsSound h =
      let t = (body (opened ctx s)).1 in
      let kept = keeps (opened ctx s) in
      subst (λ (p : Result A × Session). IsSound p.1)
        (sym (tenant_context-end_transaction u ctx body s h.idle))
        (ended_view s (body (opened ctx s)).0 t.caller t.db t.aborted t.dispatches h kept.0 kept.1)

  pub kept_view :
      s.in_transaction ≡ false → ladder_view (tenant_context u ctx body s).1.db ≡ ladder_view s.db
  kept_view idle =
      let t = (body (opened ctx s)).1 in
      ap (λ (p : Result A × Session). ladder_view p.1.db)
        (tenant_context-end_transaction u ctx body s idle)
      ∙ ended_same_view s (body (opened ctx s)).0 t.caller t.db t.aborted t.dispatches
          (keeps (opened ctx s)).0

checked_insert-Keeping :
    {A : Type 0} (v : List Approval × List AuditCard) (c : Caller) (a : Admission)
    (insert : ℕ → Sql A)
    → ((t : ℕ) → Keeping ladder_view v (insert t))
    → Keeping ladder_view v (checked_insert c a insert)
checked_insert-Keeping v c (refused e) insert h = tt
checked_insert-Keeping v c (admitted t) insert h =
    if-Keeping ladder_view v (owned c t) (insert t) (fail insufficient_privilege) (h t) tt

insert_preview_row-Keeping :
    (row : CostPreview) (db : Db) → Keeping ladder_view (ladder_view db) (insert_preview_row row db)
unfolding insert_preview_row
insert_preview_row-Keeping row db = ground arith

insert_location_row-Keeping :
    (c : Caller) (row : Location) (db : Db)
    → Keeping ladder_view (ladder_view db) (insert_location_row c row db)
unfolding insert_location_row
insert_location_row-Keeping c row db = ground arith

gates_for-Keeps :
    (env : Env) (estimated : ℤ) (balance : Option ℤ) (b : Option CostBudget)
    → Keeps ladder_view (gates_for env.codec env.today estimated balance b)
unfolding gates_for
gates_for-Keeps env estimated balance none = pure-Keeps ladder_view (budget_configured ∷ [])
gates_for-Keeps env estimated balance (some b) =
    bind-Keeps ladder_view (run (select_spend env.today))
      (λ spent. pure (budget_gates env.codec b spent estimated balance))
      (run-Keeps ladder_view (select_spend env.today) (λ c db. refl))
      (λ spent. pure-Keeps ladder_view (budget_gates env.codec b spent estimated balance))

evaluate_gates-Keeps :
    (env : Env) (estimated : ℤ) (balance : Option ℤ)
    → Keeps ladder_view (evaluate_gates env.codec env.today estimated balance)
unfolding evaluate_gates
evaluate_gates-Keeps env estimated balance =
    let k = gates_for env.codec env.today estimated balance in
    bind-Keeps ladder_view (run (select_budgets env.today)) (λ rows. one_or_none rows >>= k)
      (run-Keeps ladder_view (select_budgets env.today) (λ c db. refl))
      (λ rows.
        bind-Keeps ladder_view (one_or_none rows) k (one_or_none-Keeps ladder_view rows)
          (λ b. gates_for-Keeps env estimated balance b))

insert_preview-Keeping :
    (row : CostPreview) (c : Caller) (db : Db)
    → Keeping ladder_view (ladder_view db) (insert_preview row c db)
unfolding insert_preview
insert_preview-Keeping row c db = search (
  if-Keeping,
  checked_insert-Keeping,
  λ (t : ℕ). insert_preview_row-Keeping (record row { tenant_id = t }) db,
)

pub create_preview-Keeps :
    (env : Env) (q : PreviewRequest) → Keeps ladder_view (create_preview env q)
unfolding create_preview
create_preview-Keeps env q =
    let k = λ (gates : List Gate) (row : CostPreview). pure (preview_response env q gates row) in
    bind-Keeps ladder_view
      (evaluate_gates env.codec env.today q.estimated_cost_usd q.provider_balance_usd)
      (λ gates. run (insert_preview (preview_row env q gates)) >>= k gates)
      (evaluate_gates-Keeps env q.estimated_cost_usd q.provider_balance_usd)
      (λ gates.
        bind-Keeps ladder_view (run (insert_preview (preview_row env q gates))) (k gates)
          (run-Keeps ladder_view (insert_preview (preview_row env q gates))
            (λ c db. insert_preview-Keeping (preview_row env q gates) c db))
          (λ row. pure-Keeps ladder_view (preview_response env q gates row)))

insert_location-Keeping :
    (row : Location) (c : Caller) (db : Db)
    → Keeping ladder_view (ladder_view db) (insert_location row c db)
unfolding insert_location
insert_location-Keeping row c db = search (
  if-Keeping,
  checked_insert-Keeping,
  λ (t : ℕ). insert_location_row-Keeping c (record row { tenant_id = t }) db,
)

pub create_location-Keeps :
    (now id tenant : ℕ) (p : LocationCreate) → Keeps ladder_view (create_location now id tenant p)
unfolding create_location
create_location-Keeps now id tenant p =
    let bad = not (given p.fleet is_fleet && is_listing_type p.listing_type) in
    let insert = run (insert_location (location_row now id tenant p)) in
    bind-Keeps ladder_view (raise_if bad statement_error) (λ _. insert)
      (raise_if-Keeps ladder_view bad statement_error)
      (λ done_.
        run-Keeps ladder_view (insert_location (location_row now id tenant p))
          (λ c db. insert_location-Keeping (location_row now id tenant p) c db))
