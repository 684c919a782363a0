-- ===== src/Examples/Execution.antt =====
-- The approval ladder at a concrete purchase.
use as_baptist_api.Ladder.Guarded.{unknown_role_never_completes}
use as_baptist_api.Problem.{duplicate_idempotency_key, from_code}
use as_baptist_api.Ladder.Replay.{execute_conflict, execute_replay, IsReplayOf}
use as_baptist_api.Cost.{sum_cost, month_spend, assert_budget}
use as_baptist_api.Ladder.Agreement.{gates_agree, is_ok}
use as_baptist_api.Db.{problem, Failure, err, actor_role, Tx, Caller, run, ok, active}
use as_baptist_api.Prelude.Int.{◌+ℤ◌, ◌-ℤ◌, pos}
use mathlib.Core.Path.{refl}
use as_baptist_api.Prelude.{◌∷◌}
use as_baptist_api.Db.{CostBudget}
use as_baptist_api.Cost.{current_budgets}
use as_baptist_api.Ladder.Budgeted.{IsWithin, execute_stays_in_budget}
use as_baptist_api.Examples.World.{world, operator_caller, queue, codec, purchase, env}
use as_baptist_api.Ladder.{
  ExecuteResponse, ExecuteRequest, executed_response, all_pass, evaluate_gates, price_drifted, Gate,
  Env, execute,
}
use as_baptist_api.Ladder.Outcome.{IsCleared, execute-Outcome, Outcome}
use as_baptist_api.Prelude.{◌⊎◌, arith, none, List, ◌≡◌}

gates_agree_example :
    (gates : List Gate) × (evaluate_gates codec env.today
        (pos 2000000)
        none
        (active operator_caller world 0)
      ≡ (ok gates, active operator_caller world 0))
    × (all_pass gates
        ≡ is_ok
            (run (assert_budget env.today (pos 2000000) none) (active operator_caller world 0)).0)
gates_agree_example =
    gates_agree codec env.today (pos 2000000) none operator_caller world 0 (omega arith)

execute-Outcome_example :
    Outcome env purchase queue operator_caller world 0
      (execute env purchase queue (active operator_caller world 0))
execute-Outcome_example = execute-Outcome env purchase queue operator_caller world 0

abbrev pub start : Tx
start = active operator_caller world 0

abbrev pub paid : ExecuteResponse
paid = executed_response 40 (pos 105000) "queued"

-- The purchase goes through, and calls the queue once.
pub purchase_succeeds :
    execute env purchase queue start ≡ (ok paid, (execute env purchase queue start).1)
unfolding execute price_drifted assert_budget month_spend sum_cost ◌-ℤ◌ ◌+ℤ◌
purchase_succeeds = refl

abbrev stranger : Caller
stranger = record operator_caller { role = "authenticated" }

unknown_role_never_completes_example :
    let ended = execute env purchase queue (active stranger world 0) in
    (e : Failure) × (ended.0 ≡ err e)
    × (((ended.1.dispatches ≡ 0) × (ended.1.db ≡ world))
        ⊎ (IsCleared env purchase stranger world × (ended.1.dispatches ≡ 1)))
unfolding actor_role
unknown_role_never_completes_example =
    unknown_role_never_completes env purchase queue stranger world 0 refl refl

-- A later request with the key of the first, at another time and another price.
abbrev pub later : Env
later = record env { now_utc = 900001000; new_id = 41 }

abbrev pub retry : ExecuteRequest
retry = record purchase { reprice_cost_usd = pos 900000 }

execute_replay_example :
    (r' : ExecuteResponse) × (execute later retry queue (execute env purchase queue start).1
      ≡ (ok r', (execute env purchase queue start).1))
    × IsReplayOf codec paid r'
execute_replay_example =
    execute_replay env purchase queue operator_caller world 0 later retry queue (λ db. refl)
      purchase_succeeds refl refl refl

abbrev other_preview : ExecuteRequest
other_preview = record purchase { preview_id = 6 }

execute_conflict_example :
    execute later other_preview queue (execute env purchase queue start).1
    ≡ (err (problem (from_code duplicate_idempotency_key)), (execute env purchase queue start).1)
execute_conflict_example =
    execute_conflict env purchase queue operator_caller world 0 later other_preview queue
      (λ db. refl) purchase_succeeds refl refl (omega arith)

execute_stays_in_budget_example :
    (b : CostBudget) × (rest : List CostBudget) × (current_budgets env.today operator_caller world
      ≡ b ∷ rest)
    × IsWithin b (month_spend env.today operator_caller world) (pos 105000) none
unfolding execute price_drifted assert_budget month_spend sum_cost ◌-ℤ◌ ◌+ℤ◌
execute_stays_in_budget_example =
    execute_stays_in_budget env purchase queue operator_caller world 0 refl
