-- ===== src/Ladder/Agreement.antt =====
-- The gates that a preview shows against the enforcement of `cost.assert_budget`.
use as_baptist_api.Prelude.{
  ℕ, ◌≤◌, ◌≡◌, refl, sym, ◌∙◌, Bool, true, false, Option, none, some, List, [], ◌∷◌, length, arith,
}
use as_baptist_api.Prelude.Int.{ℤ}
use as_baptist_api.Db.{
  CostBudget, Date, Db, Result, ok, err, Sql, done, fail, finish, Tx, active, Caller, run,
  one_or_none, ◌>>=◌,
}
use as_baptist_api.Cost.{current_budgets, month_spend, check_budget, assert_among, assert_budget}
use as_baptist_api.Ladder.{
  Codec, Gate, all_pass, budget_gates, budget_configured, gates_for, evaluate_gates,
}

abbrev pub is_done : {A : Type 0} → Sql A → Bool
is_done (done a db) = true
is_done (fail e) = false

abbrev pub is_ok : {A : Type 0} → Result A → Bool
is_ok (ok a) = true
is_ok (err e) = false

-- The gates for a budget pass exactly where the check of that budget does.
budget_gates-check_budget :
    (k : Codec) (b : CostBudget) (spent estimated : ℤ) (balance : Option ℤ) (db : Db)
    → all_pass (budget_gates k b spent estimated balance)
      ≡ is_done (check_budget b spent estimated balance db)
unfolding budget_gates check_budget
budget_gates-check_budget k b spent estimated none db = ground arith
budget_gates-check_budget k b spent estimated (some balance) db = ground arith

-- The gates of the budgets found.
abbrev pub gates_among : Codec → List CostBudget → ℤ → ℤ → Option ℤ → List Gate
gates_among k [] spent estimated balance = budget_configured ∷ []
gates_among k (b ∷ _) spent estimated balance = budget_gates k b spent estimated balance

pub gates_among-assert_among :
    (k : Codec) (rows : List CostBudget) (spent estimated : ℤ) (balance : Option ℤ) (db : Db)
    → all_pass (gates_among k rows spent estimated balance)
      ≡ is_done (assert_among rows spent estimated balance db)
unfolding assert_among
gates_among-assert_among k [] spent estimated balance db = refl
gates_among-assert_among k (b ∷ rest) spent estimated balance db =
    budget_gates-check_budget k b spent estimated balance db

one_budget :
    (k : Codec) (today : Date) (estimated : ℤ) (balance : Option ℤ) (rows : List CostBudget)
    (c : Caller) (db : Db) (n : ℕ)
    → length rows ≤ 1
    → (one_or_none rows >>= gates_for k today estimated balance) (active c db n)
      ≡ (ok (gates_among k rows (month_spend today c db) estimated balance), active c db n)
unfolding gates_for
one_budget k today estimated balance [] c db n h = refl
one_budget k today estimated balance (b ∷ []) c db n h = refl
one_budget k today estimated balance (b ∷ _ ∷ rest) c db n h = absurd (omega arith)

-- The gates of a tenant's month.
abbrev pub gates_of : Codec → Date → ℤ → Option ℤ → Caller → Db → List Gate
gates_of k today estimated balance c db =
    gates_among k (current_budgets today c db) (month_spend today c db) estimated balance

pub evaluate_gates_lem :
    (k : Codec) (today : Date) (estimated : ℤ) (balance : Option ℤ) (c : Caller) (db : Db) (n : ℕ)
    → length (current_budgets today c db) ≤ 1
    → evaluate_gates k today estimated balance (active c db n)
      ≡ (ok (gates_of k today estimated balance c db), active c db n)
unfolding evaluate_gates
evaluate_gates_lem k today estimated balance c db n h =
    one_budget k today estimated balance (current_budgets today c db) c db n h

is_ok-finish : {A : Type 0} (t : Tx) (s : Sql A) → is_ok (finish t s).0 ≡ is_done s
is_ok-finish t (done a db) = refl
is_ok-finish t (fail e) = refl

-- Where the month has at most one budget for the tenant and no statement has failed yet, evaluating
-- the gates of a preview succeeds and changes nothing, and the gates all pass exactly when
-- `cost.assert_budget` would accept the same amount and balance, also where no budget is configured.
pub gates_agree :
    (k : Codec) (today : Date) (estimated : ℤ) (balance : Option ℤ) (c : Caller) (db : Db) (n : ℕ)
    → length (current_budgets today c db) ≤ 1
    → (gates : List Gate) × (evaluate_gates k today estimated balance (active c db n)
        ≡ (ok gates, active c db n))
      × (all_pass gates ≡ is_ok (run (assert_budget today estimated balance) (active c db n)).0)
unfolding run assert_budget
gates_agree k today estimated balance c db n h = (
  gates_of k today estimated balance c db,
  evaluate_gates_lem k today estimated balance c db n h,
  gates_among-assert_among k (current_budgets today c db) (month_spend today c db) estimated balance
        db
      ∙ sym (is_ok-finish (active c db n) (assert_budget today estimated balance c db)),
)
