-- ===== src/Ladder/Quote.antt =====
-- From a quote to its execution: what `create_preview` records, and what `execute` finds of it.
use as_baptist_api.Ladder.Checks.{IsExecutable}
use as_baptist_api.Ladder.Checks.{assert_budget-cases}
use as_baptist_api.Prelude.Int.{negsuc, pos, ℤ, ◌-ℤ◌}
use mathlib.Core.Path.{subst, refl, sym, ap, ◌∙◌}
use as_baptist_api.Db.Sequence.{bind_ok}
use as_baptist_api.Ladder.{evaluate_gates}
use as_baptist_api.Prelude.{
  eq_refl, inl, inr, ltb, arith, [], ◌+◌, where_rows, String, Bool, ℕ, ◌≤◌, ◌≡◌, true, false, some,
  List, ◌∷◌, ◌==◌, length, any_row,
}
use as_baptist_api.Db.{
  CostBudget, owned, Caller, Db, Tenant, Location, UserProfile, CostPreview, active, Tx, ok, done,
  finish, run, ◌>>=◌, pure,
}
use as_baptist_api.Audit.{refers}
use as_baptist_api.Cost.{assert_among, month_spend, assert_budget, current_budgets}
use as_baptist_api.Ladder.{
  check_preview, all_pass, preview_lifetime, is_preview, price_drifted, ExecuteRequest, Env, Gate,
  PreviewRequest, PreviewResponse, fits_12_4, preview_row, insert_preview_row, insert_preview,
  preview_response, create_preview,
}
use as_baptist_api.Ladder.Agreement.{
  gates_among-assert_among, is_done, gates_of, evaluate_gates_lem,
}
use as_baptist_api.Ladder.Completes.{check_preview_ok, checked_insert_ok}

-- A request for a quote that the tables can record: the caller's own tenant, at most one budget in
-- the month, a price that the column holds, a fresh identifier, and a row for every reference.
pub record IsQuotable (env : Env) (p : PreviewRequest) (c : Caller) (db : Db) : Type 0 where
  pub own_tenant : c.tenant ≡ some p.tenant_id
  pub one_budget : length (current_budgets env.today c db) ≤ 1
  pub fits : fits_12_4 p.estimated_cost_usd ≡ true
  pub fresh : any_row (λ (x : CostPreview). x.id == env.new_id) db.previews ≡ false
  pub tenant : any_row (λ (t : Tenant). t.id == p.tenant_id) db.tenants ≡ true
  pub location : refers (λ (l : Location). l.id) p.location_id db.locations ≡ true
  pub requester : any_row (λ (u : UserProfile). u.id == p.requested_by) db.users ≡ true

-- The gates, the row and the tables of a quote.
module _ (env : Env) (p : PreviewRequest) (c : Caller) (db : Db) where
  abbrev pub quote_gates : List Gate
  quote_gates = gates_of env.codec env.today p.estimated_cost_usd p.provider_balance_usd c db

  abbrev pub quote_row : CostPreview
  quote_row = preview_row env p quote_gates

  abbrev pub quoted_db : Db
  quoted_db = record db { previews = quote_row ∷ db.previews }

  insert_preview_row_ok :
      IsQuotable env p c db → insert_preview_row quote_row db ≡ done quote_row quoted_db
  unfolding insert_preview_row preview_row
  insert_preview_row_ok h = rw h.fresh (rw h.tenant (rw h.location (rw h.requester)))

  insert_preview_ok :
      IsQuotable env p c db → insert_preview quote_row c db ≡ done quote_row quoted_db
  unfolding insert_preview preview_row
  insert_preview_ok h = rw h.fits (
      checked_insert_ok c p.tenant_id
        (λ t. insert_preview_row (record quote_row { tenant_id = t }) db) h.own_tenant
      ∙ insert_preview_row_ok h)

  pub create_preview_records :
      (n : ℕ)
      → IsQuotable env p c db
      → create_preview env p (active c db n)
        ≡ (ok (preview_response env p quote_gates quote_row), active c quoted_db n)
  unfolding create_preview run
  create_preview_records n h =
      bind_ok (evaluate_gates env.codec env.today p.estimated_cost_usd p.provider_balance_usd)
        (λ gates. run (insert_preview (preview_row env p gates)) >>= λ row.
          pure (preview_response env p gates row))
        (active c db n)
        (evaluate_gates_lem env.codec env.today p.estimated_cost_usd p.provider_balance_usd c db n
          h.one_budget)
      ∙ bind_ok (run (insert_preview quote_row))
          (λ row. pure (preview_response env p quote_gates row)) (active c db n)
          (ap (finish (active c db n)) (insert_preview_ok h))

-- Rows of another identifier are not selected.
where_rows-other_ids :
    (id : ℕ) (s : CostPreview → Bool) (rows : List CostPreview)
    → ((x : CostPreview) → (x.id == id) ≡ false → s x ≡ false)
    → any_row (λ (x : CostPreview). x.id == id) rows ≡ false
    → where_rows s rows ≡ []
where_rows-other_ids id s [] by_id h = refl
where_rows-other_ids id s (x ∷ rows) by_id h =
    ground (arith, by_id x, where_rows-other_ids id s rows by_id)

is_preview-other_id :
    (c : Caller) (tenant : ℕ) (operation : String) (id : ℕ) (x : CostPreview)
    → (x.id == id) ≡ false
    → is_preview c tenant operation id x ≡ false
is_preview-other_id c tenant operation id x h = ground arith

-- A price does not drift from itself.
price_drifted_self : (x : ℤ) → price_drifted x x ≡ false
unfolding price_drifted ◌-ℤ◌
price_drifted_self (pos b) = ground arith
price_drifted_self (negsuc b) = refl

-- A request that executes a quote as it was quoted: the same tenant, operation, price and balance, and
-- not after it expires.
pub record IsPromptOrder (env env' : Env) (p : PreviewRequest) (q : ExecuteRequest) : Type 0 where
  pub same_tenant : q.tenant_id ≡ p.tenant_id
  pub same_operation : q.operation ≡ p.operation
  pub same_preview : q.preview_id ≡ env.new_id
  pub same_price : q.reprice_cost_usd ≡ p.estimated_cost_usd
  pub same_balance : q.provider_balance_usd ≡ p.provider_balance_usd
  pub in_time : env'.now_utc ≤ env.now + preview_lifetime

-- What a quote needs of later tables: the preview is found as it was recorded, and the budgets and the
-- spend of the month read as they did when it was made.
pub record IsUnspent (env env' : Env) (q : ExecuteRequest) (c : Caller) (db quoted later : Db)
    : Type 0 where
  pub kept :
      where_rows (is_preview c q.tenant_id q.operation q.preview_id) later.previews
      ≡ where_rows (is_preview c q.tenant_id q.operation q.preview_id) quoted.previews
  pub same_budgets : current_budgets env'.today c later ≡ current_budgets env.today c db
  pub same_spend : month_spend env'.today c later ≡ month_spend env.today c db

module _ (env env' : Env) (p : PreviewRequest) (q : ExecuteRequest) (c : Caller) (db later : Db)
    (h : IsQuotable env p c db) (o : IsPromptOrder env env' p q) where
  abbrev here : Db
  here = quoted_db env p c db

  quote_selected : is_preview c p.tenant_id p.operation env.new_id (quote_row env p c db) ≡ true
  unfolding preview_row
  quote_selected = rw (h.own_tenant, owned) (ground (arith, eq_refl p.operation))

  quote_found :
      where_rows (is_preview c q.tenant_id q.operation q.preview_id) here.previews
      ≡ quote_row env p c db ∷ []
  quote_found =
      ap (λ (x : ℕ × String × ℕ). where_rows (is_preview c x.0 x.1 x.2) here.previews) asked
      ∙ rw quote_selected (
          ap (λ rows. quote_row env p c db ∷ rows)
            (where_rows-other_ids env.new_id (is_preview c p.tenant_id p.operation env.new_id)
              db.previews (is_preview-other_id c p.tenant_id p.operation env.new_id) h.fresh))
    where
      asked :
          ◌≡◌ {A = ℕ × String × ℕ}
            (q.tenant_id, q.operation, q.preview_id)
            (p.tenant_id, p.operation, env.new_id)
      asked = cc (o.same_tenant, o.same_operation, o.same_preview)

  quote_agreed :
      all_pass (quote_gates env p c db)
      ≡ is_done (assert_budget env.today p.estimated_cost_usd p.provider_balance_usd c db)
  unfolding assert_budget month_spend
  quote_agreed =
      gates_among-assert_among env.codec (current_budgets env.today c db)
        (month_spend env.today c db) p.estimated_cost_usd p.provider_balance_usd db

  same_assertion :
      IsUnspent env env' q c db here later
      → is_done (assert_budget env'.today p.estimated_cost_usd p.provider_balance_usd c later)
        ≡ is_done (assert_budget env.today p.estimated_cost_usd p.provider_balance_usd c db)
  unfolding assert_budget
  same_assertion u =
      ap
        (λ (x : List CostBudget × ℤ).
          is_done (assert_among x.0 x.1 p.estimated_cost_usd p.provider_balance_usd later))
        same_inputs
      ∙ sym (
          gates_among-assert_among env.codec (current_budgets env.today c db)
            (month_spend env.today c db) p.estimated_cost_usd p.provider_balance_usd later)
      ∙ gates_among-assert_among env.codec (current_budgets env.today c db)
          (month_spend env.today c db) p.estimated_cost_usd p.provider_balance_usd db
    where
      same_inputs :
          ◌≡◌ {A = List CostBudget × ℤ}
            (current_budgets env'.today c later, month_spend env'.today c later)
            (current_budgets env.today c db, month_spend env.today c db)
      same_inputs = cc (u.same_budgets, u.same_spend)

  quote_accepted :
      IsUnspent env env' q c db here later
      → all_pass (quote_gates env p c db) ≡ true
      → assert_budget env'.today p.estimated_cost_usd p.provider_balance_usd c later ≡ done tt later
  quote_accepted u passes =
      elim (assert_budget-cases env'.today p.estimated_cost_usd p.provider_balance_usd c later) [
        | inl fits ↦ fits
        | inr over ↦ absurd (cc (sym passes ∙ quote_agreed ∙ sym (same_assertion u), over))
      ]

  quote_IsExecutable :
      IsUnspent env env' q c db here later
      → all_pass (quote_gates env p c db) ≡ true
      → IsExecutable env' q c later (quote_row env p c db)
  unfolding preview_row
  quote_IsExecutable u passes = record {
    unexpired = unexpired;
    steady = rw o.same_price (price_drifted_self p.estimated_cost_usd);
    affordable = rw (o.same_price, o.same_balance) (quote_accepted u passes);
  }
    where
      unexpired : ltb (env.now + preview_lifetime) env'.now_utc ≡ false
      unexpired = ground (arith, o.in_time)

  -- A quote that passes is honoured: after `create_preview` has answered a request that the tables
  -- can record, and answered that it passes, the checks of `execute` accept a request for it at the
  -- quoted price and balance, not later than fifteen minutes after it, and change nothing, on any
  -- later tables where the preview is still found and the tenant's budgets and spend of the month
  -- read as they did for the quote.
  pub quote_honoured :
      (n n' : ℕ) (r : PreviewResponse) (t : Tx)
      → create_preview env p (active c db n) ≡ (ok r, t)
      → r.passes ≡ true
      → IsUnspent env env' q c db t.db later
      → check_preview env' q (active c later n') ≡ (ok tt, active c later n')
  quote_honoured n n' r t created passes unspent =
      let e = sym created ∙ create_preview_records env p c db n h in
      let all_passed : all_pass (quote_gates env p c db) ≡ true = cc (e, passes) in
      let now_at : t.db ≡ here = ap (λ x. x.1.db) e in
      let u = subst (λ d. IsUnspent env env' q c db d later) now_at unspent in
      check_preview_ok env' q c later n' (quote_row env p c db) (u.kept ∙ quote_found)
        (quote_IsExecutable u all_passed)
