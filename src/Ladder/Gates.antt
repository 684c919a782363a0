-- ===== src/Ladder/Gates.antt =====
-- `CostUnit.as_dict` and `_evaluate_gates`.
use Prim.Native.String.{◌++◌ as text_append}
use as_baptist_api.Prelude.{
  Bool, true, false, ◌&&◌, ◌||◌, not, String, Option, none, some, List, [], ◌∷◌,
}
use as_baptist_api.Prelude.Int.{ℤ, ◌+ℤ◌, ◌-ℤ◌, leb_ℤ}
use as_baptist_api.Db.{CostBudget, Date, done, Statement, Exec, run, ◌>>=◌, pure, one_or_none}
use as_baptist_api.Cost.{current_budgets, month_spend}
use as_baptist_api.Ladder.Types.{Codec, CostUnit, Gate}

infixr 20 ◌⧺◌
abbrev pub ◌⧺◌ : String → String → String
s ⧺ t = text_append s t

unfoldable pub as_dict : Codec → CostUnit → List (String × String)
as_dict k u =
    ("label", u.label)
    ∷ ("count", k.count_text u.count)
    ∷ ("unit_cost_usd", k.decimal_text u.unit_cost_usd)
    ∷ ("subtotal_usd", k.decimal_text u.subtotal_usd)
    ∷ []

abbrev pub budget_configured : Gate
budget_configured = record {
  id = "budget_configured";
  passed = false;
  detail = "No cost budget configured for this tenant/month.";
}

unfoldable pub per_run_gate : Codec → CostBudget → ℤ → Gate
per_run_gate k b estimated = record {
  id = "per_run_cap";
  passed = leb_ℤ estimated b.per_run_cap_usd;
  detail = "$" ⧺ k.two_places estimated ⧺ " <= $" ⧺ k.two_places b.per_run_cap_usd;
}

unfoldable pub monthly_gate : Codec → CostBudget → ℤ → ℤ → Gate
monthly_gate k b spent estimated = record {
  id = "monthly_cap";
  passed = not b.hard_stop || leb_ℤ (spent +ℤ estimated) b.monthly_cap_usd;
  detail =
      "$"
      ⧺ k.two_places spent
      ⧺ " + $"
      ⧺ k.two_places estimated
      ⧺ " <= $"
      ⧺ k.two_places b.monthly_cap_usd;
}

-- The gate that is appended where the provider's balance is known.
unfoldable pub floor_gates : Codec → CostBudget → ℤ → Option ℤ → List Gate
floor_gates k b estimated none = []
floor_gates k b estimated (some balance) =
    record {
      id = "balance_floor";
      passed = leb_ℤ b.balance_floor_usd (balance -ℤ estimated);
      detail =
          "$" ⧺ k.two_places (balance -ℤ estimated) ⧺ " >= $" ⧺ k.two_places b.balance_floor_usd;
    }
    ∷ []

unfoldable pub budget_gates : Codec → CostBudget → ℤ → ℤ → Option ℤ → List Gate
unfolding per_run_gate monthly_gate floor_gates
budget_gates k b spent estimated balance =
    per_run_gate k b estimated
    ∷ monthly_gate k b spent estimated
    ∷ floor_gates k b estimated balance

-- The two queries: the budget of the month, and the spend of the month.
abbrev pub select_budgets : Date → Statement (List CostBudget)
select_budgets today c db = done (current_budgets today c db) db

abbrev pub select_spend : Date → Statement ℤ
select_spend today c db = done (month_spend today c db) db

unfoldable pub gates_for : Codec → Date → ℤ → Option ℤ → Option CostBudget → Exec (List Gate)
unfolding budget_gates run
gates_for k today estimated balance none = pure (budget_configured ∷ [])
gates_for k today estimated balance (some b) = do
  spent ← run (select_spend today)
  pure (budget_gates k b spent estimated balance)

unfoldable pub evaluate_gates : Codec → Date → ℤ → Option ℤ → Exec (List Gate)
unfolding gates_for run
evaluate_gates k today estimated balance = do
  rows ← run (select_budgets today)
  budget ← one_or_none rows
  gates_for k today estimated balance budget

-- `all(gate["pass"] for gate in gates)`.
abbrev pub all_pass : List Gate → Bool
all_pass [] = true
all_pass (g ∷ gs) = g.passed && all_pass gs
