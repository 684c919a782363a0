-- ===== src/Ladder/Recorded.antt =====
-- What `create_preview` records and answers, field by field.
use mathlib.Core.Path.{refl, ap}
use as_baptist_api.Prelude.{◌*◌, ℕ, ◌+◌, ◌≡◌, List, [], ◌∷◌, ◌&&◌, map, all_rows}
use as_baptist_api.Db.{Caller, Db, CostPreview, active, ok}
use as_baptist_api.Cost.{assert_budget, month_spend, current_budgets}
use as_baptist_api.Ladder.{
  evaluate_gates, Env, Gate, PreviewRequest, PreviewResponse, all_pass, as_dict, create_preview,
  preview_response, preview_row,
}
use as_baptist_api.Ladder.Agreement.{evaluate_gates_lem, is_done, gates_among-assert_among}
use as_baptist_api.Ladder.Quote.{IsQuotable, quote_gates, quote_row, create_preview_records}

-- The preview of a request: its own values, and an expiry fifteen minutes after it was made.
pub record IsQuoteOf (env : Env) (p : PreviewRequest) (row : CostPreview) : Type 0 where
  pub id : row.id ≡ env.new_id
  pub tenant : row.tenant_id ≡ p.tenant_id
  pub location : row.location_id ≡ p.location_id
  pub operation : row.operation ≡ p.operation
  pub requester : row.requested_by ≡ p.requested_by
  pub params : row.params ≡ p.params
  pub units :
      row.units
      ≡ env.codec.dumps_list (map (λ u. env.codec.dumps_object (as_dict env.codec u)) p.units)
  pub price : row.estimated_cost_usd ≡ p.estimated_cost_usd
  pub created : row.created_at ≡ env.now
  pub expires : row.expires_at ≡ env.now + 15 * 60 * 1000000

-- The answer shows the recorded preview, and passes if every gate that it shows does.
pub record IsAnswerTo (env : Env) (p : PreviewRequest) (row : CostPreview) (r : PreviewResponse)
    : Type 0 where
  pub id : r.preview_id ≡ env.new_id
  pub operation : r.operation ≡ p.operation
  pub units : r.units ≡ map (as_dict env.codec) p.units
  pub price : r.estimated_cost_usd ≡ p.estimated_cost_usd
  pub expires : r.expires_at ≡ env.now + 15 * 60 * 1000000
  pub recorded : row.passes ≡ r.passes
  pub gates : r.passes ≡ all_rows (λ (g : Gate). g.passed) r.gates

all_pass_lem : (gs : List Gate) → all_pass gs ≡ all_rows (λ (g : Gate). g.passed) gs
all_pass_lem [] = refl
all_pass_lem (g ∷ gs) = ap (λ b. g.passed && b) (all_pass_lem gs)

-- A request for a quote in the caller's own tenant, in a month with at most one budget, at a price
-- that the column holds, with a fresh identifier and a row for every reference, succeeds whether or
-- not its gates pass. Its only effect is one more preview, with the request's values and price, which
-- expires fifteen minutes later. The answer shows them and the evaluated gates, and passes exactly if
-- every gate that it shows passes, and exactly if `cost.assert_budget` would accept the price; the preview says the same.
pub create_preview_quotes :
    (env : Env) (p : PreviewRequest) (c : Caller) (db : Db) (n : ℕ)
    → IsQuotable env p c db
    → (r : PreviewResponse) × (row : CostPreview) × (create_preview env p (active c db n)
        ≡ (ok r, active c (record db { previews = row ∷ db.previews }) n))
      × IsQuoteOf env p row
      × IsAnswerTo env p row r
      × (evaluate_gates env.codec env.today p.estimated_cost_usd p.provider_balance_usd
            (active c db n)
          ≡ (ok r.gates, active c db n))
      × (r.passes
          ≡ is_done (assert_budget env.today p.estimated_cost_usd p.provider_balance_usd c db))
unfolding preview_row assert_budget month_spend
create_preview_quotes env p c db n h = (
  preview_response env p (quote_gates env p c db) (quote_row env p c db),
  quote_row env p c db,
  create_preview_records env p c db n h,
  record {
    id = refl;
    tenant = refl;
    location = refl;
    operation = refl;
    requester = refl;
    params = refl;
    units = refl;
    price = refl;
    created = refl;
    expires = refl;
  },
  record {
    id = refl;
    operation = refl;
    units = refl;
    price = refl;
    expires = refl;
    recorded = refl;
    gates = all_pass_lem (quote_gates env p c db);
  },
  evaluate_gates_lem env.codec env.today p.estimated_cost_usd p.provider_balance_usd c db n
      h.one_budget,
  gates_among-assert_among env.codec (current_budgets env.today c db) (month_spend env.today c db)
      p.estimated_cost_usd p.provider_balance_usd db,
)
