-- ===== src/Examples/Histories.antt =====
-- A run of a quote, a purchase and its retry, from a session without approvals.
use mathlib.Core.Path.{refl}
use as_baptist_api.Prelude.{◌≡◌, false, none, List, [], ◌∷◌, arith}
use as_baptist_api.Prelude.Int.{pos, ◌+ℤ◌, ◌-ℤ◌}
use as_baptist_api.Db.{AppSettings, RequestContext, Session, ok, tenant_context}
use as_baptist_api.Cost.{assert_budget, month_spend, sum_cost}
use as_baptist_api.Ladder.{
  Env, ExecuteRequest, ExecuteResponse, PreviewRequest, execute, create_preview, executed_response,
  price_drifted,
}
use as_baptist_api.History.Sound.{IsOutside, IsSound}
use as_baptist_api.History.Steps.{Event, Run, start, executes, quotes}
use as_baptist_api.History.Receipts.{last, earlier, Follows}
use as_baptist_api.History.Lookup.{receipts_of}
use as_baptist_api.History.Refines.{run-Follows, run_one_approval}
use as_baptist_api.History.Invariant.{run-IsSound}
use as_baptist_api.Examples.World.{unary, length_of, world, env, codec, purchase, queue, unary_text}

abbrev ctx : RequestContext
ctx = record { tenant_id = 1; actor_id = 7; role = "as_admin" }

abbrev unset : AppSettings
unset = record { tenant_id = none; actor_id = none; role = none; request_id = none }

abbrev first : Session
first = record { db = world; settings = unset; in_transaction = false; dispatches = 0 }

first-IsSound : IsSound first
first-IsSound = record { idle = refl; distinct = tt; audited = tt; paid = omega arith }

queue-IsOutside : IsOutside queue
queue-IsOutside = record { keeps_approvals = λ db. refl; keeps_cards = λ db p h. h }

abbrev wish : PreviewRequest
wish = record {
  tenant_id = 1;
  location_id = none;
  operation = "scan";
  requested_by = 7;
  params = "{}";
  units = [];
  estimated_cost_usd = pos 200000;
  provider_balance_usd = none;
}

abbrev earlier_env : Env
earlier_env = record env { new_id = 6 }

abbrev after_quote : Session
after_quote = (tenant_context unary_text ctx (create_preview earlier_env wish) first).1

abbrev after_purchase : Session
after_purchase = (tenant_context unary_text ctx (execute env purchase queue) after_quote).1

-- The purchase again, a minute later and at another price.
abbrev later_env : Env
later_env = record env { now_utc = 60001000; now = 60001000; new_id = 41 }

abbrev again : ExecuteRequest
again = record purchase { reprice_cost_usd = pos 900000 }

abbrev after_retry : Session
after_retry = (tenant_context unary_text ctx (execute later_env again queue) after_purchase).1

abbrev bought : Event
bought = record {
  codec = codec;
  tenant = 1;
  request = purchase;
  answer = (tenant_context unary_text ctx (execute env purchase queue) after_quote).0;
}

abbrev repeated : Event
repeated = record {
  codec = codec;
  tenant = 1;
  request = again;
  answer = (tenant_context unary_text ctx (execute later_env again queue) after_purchase).0;
}

abbrev events : List Event
events = repeated ∷ bought ∷ []

served : Run unary_text first events after_retry
served =
    executes (executes (quotes start ctx earlier_env wish) ctx env purchase queue queue-IsOutside)
      ctx later_env again queue queue-IsOutside

run-IsSound_example : IsSound after_retry
run-IsSound_example = run-IsSound unary_text first after_retry events first-IsSound served

run-Follows_example : Follows (receipts_of []) events (receipts_of after_retry.db.approvals)
run-Follows_example = run-Follows unary_text first after_retry events first-IsSound served

abbrev response : ExecuteResponse
response = executed_response 40 (pos 105000) "queued"

purchase_answered : bought.answer ≡ ok response
unfolding tenant_context execute price_drifted assert_budget month_spend sum_cost ◌-ℤ◌ ◌+ℤ◌
    create_preview unary length_of
purchase_answered = refl

retry_answered : repeated.answer ≡ ok response
unfolding tenant_context execute price_drifted assert_budget month_spend sum_cost ◌-ℤ◌ ◌+ℤ◌
    create_preview unary length_of
retry_answered = refl

run_one_approval_example : response.approval_id ≡ response.approval_id
run_one_approval_example =
    run_one_approval unary_text first after_retry events bought repeated response response
      first-IsSound served (earlier last) last purchase_answered retry_answered refl refl
