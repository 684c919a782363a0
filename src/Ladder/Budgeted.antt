-- ===== src/Ladder/Budgeted.antt =====
-- The budget and the outside work: nothing is dispatched that the budget of the month refuses.
use mathlib.Core.Path.{subst, refl}
use as_baptist_api.Prelude.{ℕ, ◌+◌, ◌≡◌, inl, inr, true, Option, none, some, List, [], ◌∷◌, arith}
use as_baptist_api.Prelude.Int.{ℤ, ◌≤ℤ◌, ◌+ℤ◌, ◌-ℤ◌}
use as_baptist_api.Db.{Caller, Db, CostBudget, done, active}
use as_baptist_api.Cost.{current_budgets, month_spend, check_budget, assert_among, assert_budget}
use as_baptist_api.Ladder.{Env, ExecuteRequest, Dispatch, execute}
use as_baptist_api.Ladder.Guarded.{execute_guarded}

-- A price within the caps of a budget, and a balance that stays above its floor.
pub record IsWithin (b : CostBudget) (spent price : ℤ) (balance : Option ℤ) : Type 0 where
  pub per_run : price ≤ℤ b.per_run_cap_usd
  pub monthly : b.hard_stop ≡ true → (spent +ℤ price) ≤ℤ b.monthly_cap_usd
  pub above_floor : (x : ℤ) → balance ≡ some x → b.balance_floor_usd ≤ℤ (x -ℤ price)

floor_kept :
    (b : CostBudget) (spent price balance : ℤ) (db : Db)
    → check_budget b spent price (some balance) db ≡ done tt db
    → b.balance_floor_usd ≤ℤ (balance -ℤ price)
unfolding check_budget
floor_kept b spent price balance db h = ground (arith, h)

check_budget-IsWithin :
    (b : CostBudget) (spent price : ℤ) (balance : Option ℤ) (db : Db)
    → check_budget b spent price balance db ≡ done tt db
    → IsWithin b spent price balance
unfolding check_budget
check_budget-IsWithin b spent price none db h = record {
  per_run = ground (arith, h);
  monthly = λ stop. ground (arith, h, stop);
  above_floor = λ x e. absurd (cc e);
}
check_budget-IsWithin b spent price (some balance) db h = record {
  per_run = ground (arith, h);
  monthly = λ stop. ground (arith, h, stop);
  above_floor = λ x e.
      subst (λ (y : ℤ). b.balance_floor_usd ≤ℤ (y -ℤ price)) (cc e)
        (floor_kept b spent price balance db h);
}

assert_among-IsWithin :
    (rows : List CostBudget) (spent price : ℤ) (balance : Option ℤ) (db : Db)
    → assert_among rows spent price balance db ≡ done tt db
    → (b : CostBudget) × (rest : List CostBudget) × (rows ≡ b ∷ rest)
      × IsWithin b spent price balance
unfolding assert_among
assert_among-IsWithin [] spent price balance db h = absurd (cc h)
assert_among-IsWithin (b ∷ rest) spent price balance db h =
    (b, rest, refl, check_budget-IsWithin b spent price balance db h)

module _ (env : Env) (q : ExecuteRequest) (dispatch : Dispatch) (c : Caller) (db : Db) (n : ℕ) where
  accepted-IsWithin :
      assert_budget env.today q.reprice_cost_usd q.provider_balance_usd c db ≡ done tt db
      → (b : CostBudget) × (rest : List CostBudget) × (current_budgets env.today c db ≡ b ∷ rest)
        × IsWithin b (month_spend env.today c db) q.reprice_cost_usd q.provider_balance_usd
  unfolding assert_budget
  accepted-IsWithin h =
      assert_among-IsWithin (current_budgets env.today c db) (month_spend env.today c db)
        q.reprice_cost_usd q.provider_balance_usd db h

  -- If a request calls the dispatch, the tenant has a budget for the month, the price is within the
  -- cap of a run, the month's billed spend and the price together are within the monthly cap if that
  -- is a hard stop, and a balance that is known stays at or above the floor.
  pub execute_stays_in_budget :
      (execute env q dispatch (active c db n)).1.dispatches ≡ n + 1
      → (b : CostBudget) × (rest : List CostBudget) × (current_budgets env.today c db ≡ b ∷ rest)
        × IsWithin b (month_spend env.today c db) q.reprice_cost_usd q.provider_balance_usd
  execute_stays_in_budget called = elim (execute_guarded env q dispatch c db n) [
    | inl (silent, same) ↦ absurd (omega (arith, called, silent))
    | inr (cleared, more) ↦ accepted-IsWithin cleared.executable.affordable
  ]
