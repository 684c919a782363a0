-- ===== src/Cost/Budget.antt =====
-- `cost.month_spend` and `cost.assert_budget`, as the role `app_api` runs them.
use as_baptist_api.Prelude.{
  ◌+◌, Bool, false, ◌&&◌, ◌||◌, not, Option, none, some, List, [], ◌∷◌, ltb, ◌==◌, str_eq,
  where_rows, if◌then◌else◌,
}
use as_baptist_api.Prelude.Int.{ℤ, pos, ◌+ℤ◌, ◌-ℤ◌, ltb_ℤ}
use as_baptist_api.Db.{
  Caller, Db, Date, CostLedger, CostBudget, owned, Sql, done, fail, raise_exception, Statement,
}

-- `date_trunc('month', d)::date`.
abbrev pub month_start : Date → Date
month_start d = record { month = d.month; day = 1 }

-- `(d + interval '1 month')::date`, for the first day of a month.
abbrev pub next_month : Date → Date
next_month d = record { month = d.month + 1; day = d.day }

abbrev pub date_lt : Date → Date → Bool
date_lt a b = ltb a.month b.month || (a.month == b.month && ltb a.day b.day)

abbrev pub date_eq : Date → Date → Bool
date_eq a b = a.month == b.month && a.day == b.day

-- The `where` clause of `cost.month_spend(p_month)`.
abbrev pub billed_in : Caller → Date → CostLedger → Bool
billed_in c p_month row =
    owned c row.tenant_id
    && (str_eq row.billing "billed"
        && (not (date_lt row.billing_date p_month)
            && date_lt row.billing_date (next_month p_month)))

-- `coalesce(sum(cost_usd), 0)`.
unfoldable pub sum_cost : List CostLedger → ℤ
sum_cost [] = pos 0
sum_cost (row ∷ rows) = row.cost_usd +ℤ sum_cost rows

-- `cost.month_spend()`, with the default month.
unfoldable pub month_spend : Date → Caller → Db → ℤ
month_spend today c db = sum_cost (where_rows (billed_in c (month_start today)) db.ledger)

-- The budget rows of the caller's tenant for the current month.
abbrev pub is_current : Date → Caller → CostBudget → Bool
is_current today c b = owned c b.tenant_id && date_eq b.period_month (month_start today)

abbrev pub current_budgets : Date → Caller → Db → List CostBudget
current_budgets today c db = where_rows (is_current today c) db.budgets

-- `p_balance_usd is not null and p_balance_usd - p_projected_usd < b.balance_floor_usd`.
abbrev pub below_floor : Option ℤ → ℤ → ℤ → Bool
below_floor none projected floor = false
below_floor (some balance) projected floor = ltb_ℤ (balance -ℤ projected) floor

-- The body of `cost.assert_budget` once the budget `b` is found.
unfoldable pub check_budget : CostBudget → ℤ → ℤ → Option ℤ → Db → Sql (Unit {0})
check_budget b spent projected balance db =
    if ltb_ℤ b.per_run_cap_usd projected
    then fail raise_exception
    else if b.hard_stop && ltb_ℤ b.monthly_cap_usd (spent +ℤ projected)
    then fail raise_exception
    else if below_floor balance projected b.balance_floor_usd
    then fail raise_exception
    else done tt db

-- `select … into b` takes the first row; with no row the run is refused.
unfoldable pub assert_among : List CostBudget → ℤ → ℤ → Option ℤ → Db → Sql (Unit {0})
unfolding check_budget
assert_among [] spent projected balance db = fail raise_exception
assert_among (b ∷ _) spent projected balance db = check_budget b spent projected balance db

-- `cost.assert_budget(p_projected_usd, p_balance_usd)`.
unfoldable pub assert_budget : Date → ℤ → Option ℤ → Statement (Unit {0})
unfolding assert_among
assert_budget today projected balance c db =
    assert_among (current_budgets today c db) (month_spend today c db) projected balance db
