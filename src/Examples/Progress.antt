-- ===== src/Examples/Progress.antt =====
-- A purchase that is cleared, and completes.
use as_baptist_api.Ladder.Recorded.{create_preview_quotes, IsQuoteOf, IsAnswerTo}
use as_baptist_api.Ladder.Agreement.{is_done}
use as_baptist_api.Ladder.{PreviewResponse, evaluate_gates}
use as_baptist_api.Db.{CostPreview}
use as_baptist_api.Examples.World.{user}
use as_baptist_api.Prelude.{◌∷◌}
use mathlib.Core.Path.{refl}
use as_baptist_api.Prelude.{true, none, [], arith, ◌≡◌}
use as_baptist_api.Prelude.Int.{pos, ◌+ℤ◌, ◌-ℤ◌}
use as_baptist_api.Db.{err, problem, as_admin, actor_role, active, ok, Db}
use as_baptist_api.Audit.{card_row}
use as_baptist_api.Cost.{sum_cost, month_spend, assert_budget}
use as_baptist_api.Problem.{from_code, duplicate_idempotency_key}
use as_baptist_api.Ladder.Misreport.{LacksApprover, missing_approver_is_duplicate}
use as_baptist_api.Ladder.Quote.{
  IsQuotable, create_preview_records, quote_honoured, quote_gates, quote_row, quoted_db,
}
use as_baptist_api.Ladder.{
  PreviewRequest, ExecuteRequest, Env, create_preview, preview_response, check_preview,
  budget_gates, per_run_gate, monthly_gate, floor_gates, execute, executed_card, executed_response,
  price_drifted,
}
use as_baptist_api.Ladder.CarryOut.{with_card}
use as_baptist_api.Ladder.Outcome.{IsCleared, outcome_db}
use as_baptist_api.Ladder.Completes.{execute_completes}
use as_baptist_api.Examples.World.{world, operator_caller, queue, purchase, env, quoted}

purchase-IsCleared : IsCleared env purchase operator_caller world
unfolding price_drifted assert_budget month_spend sum_cost ◌-ℤ◌ ◌+ℤ◌
purchase-IsCleared = record {
  new_key = refl;
  preview = quoted;
  found = refl;
  executable = record { unexpired = refl; steady = refl; affordable = refl };
  admitted = record {
    own_tenant = refl;
    unclashed = refl;
    references = record { tenant = refl; location = refl; preview = refl; approver = refl };
  };
}

abbrev after_queue : Db
after_queue = outcome_db env purchase queue operator_caller world 0 "queued"

execute_completes_example : execute env purchase queue (active operator_caller world 0) ≡ (
  ok (executed_response 40 purchase.reprice_cost_usd "queued"),
  active operator_caller
      (with_card
        (card_row env.now (executed_card env purchase 40) 1 as_admin operator_caller after_queue)
        after_queue)
      1,
)
unfolding actor_role
execute_completes_example =
    execute_completes env purchase queue operator_caller world 0 "queued" as_admin
      purchase-IsCleared refl refl refl
      (record { tenant = refl; location = refl; actor = refl; approval = refl })

-- A quote of ten dollars, and an order for it ten minutes later.
abbrev enquiry : PreviewRequest
enquiry = record {
  tenant_id = 1;
  location_id = none;
  operation = "scan";
  requested_by = 7;
  params = "{}";
  units = [];
  estimated_cost_usd = pos 100000;
  provider_balance_usd = none;
}

enquiry-IsQuotable : IsQuotable env enquiry operator_caller world
enquiry-IsQuotable = record {
  own_tenant = refl;
  one_budget = omega arith;
  fits = refl;
  fresh = refl;
  tenant = refl;
  location = refl;
  requester = refl;
}

create_preview_quotes_example :
    (r : PreviewResponse) × (row : CostPreview) × (create_preview env enquiry
        (active operator_caller world 0)
      ≡ (ok r, active operator_caller (record world { previews = row ∷ world.previews }) 0))
    × IsQuoteOf env enquiry row
    × IsAnswerTo env enquiry row r
    × (evaluate_gates env.codec env.today (pos 100000) none (active operator_caller world 0)
        ≡ (ok r.gates, active operator_caller world 0))
    × (r.passes ≡ is_done (assert_budget env.today (pos 100000) none operator_caller world))
create_preview_quotes_example =
    create_preview_quotes env enquiry operator_caller world 0 enquiry-IsQuotable

abbrev ten_minutes_later : Env
ten_minutes_later = record env { now_utc = 600000000; now = 600000000; new_id = 41 }

abbrev order : ExecuteRequest
order = record purchase { preview_id = 40; reprice_cost_usd = pos 100000 }

-- Ten minutes later the tables have one more user, and one outside call was made.
abbrev tables_later : Db
tables_later = record (quoted_db env enquiry operator_caller world) {
  users = record user { id = 9 } ∷ world.users;
}

quote_honoured_example :
    check_preview ten_minutes_later order (active operator_caller tables_later 1)
    ≡ (ok tt, active operator_caller tables_later 1)
unfolding month_spend sum_cost budget_gates per_run_gate monthly_gate floor_gates ◌+ℤ◌
quote_honoured_example =
    quote_honoured env ten_minutes_later enquiry order operator_caller world tables_later
      enquiry-IsQuotable
      (record {
        same_tenant = refl;
        same_operation = refl;
        same_preview = refl;
        same_price = refl;
        same_balance = refl;
        in_time = omega arith;
      })
      0 1
      (preview_response env enquiry (quote_gates env enquiry operator_caller world)
        (quote_row env enquiry operator_caller world))
      (active operator_caller (quoted_db env enquiry operator_caller world) 0)
      (create_preview_records env enquiry operator_caller world 0 enquiry-IsQuotable) refl
      (record { kept = refl; same_budgets = refl; same_spend = refl })

-- A purchase approved by someone whom the service has never seen.
abbrev by_a_stranger : ExecuteRequest
by_a_stranger = record purchase { approved_by = 8 }

by_a_stranger-LacksApprover : LacksApprover env by_a_stranger operator_caller world
unfolding price_drifted assert_budget month_spend sum_cost ◌-ℤ◌ ◌+ℤ◌
by_a_stranger-LacksApprover = record {
  new_key = refl;
  preview = quoted;
  found = refl;
  executable = record { unexpired = refl; steady = refl; affordable = refl };
  own_tenant = refl;
  unclashed = refl;
  tenant = refl;
  location = refl;
  preview_row = refl;
  no_approver = refl;
}

missing_approver_is_duplicate_example :
    execute env by_a_stranger queue (active operator_caller world 0) ≡ (
      err (problem (from_code duplicate_idempotency_key)),
      record (active operator_caller world 0) { aborted = true },
    )
missing_approver_is_duplicate_example =
    missing_approver_is_duplicate env by_a_stranger queue operator_caller world 0
      by_a_stranger-LacksApprover
