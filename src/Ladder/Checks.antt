-- ===== src/Ladder/Checks.antt =====
-- What the checks before an approval leave behind, in a transaction of which no statement failed.
use as_baptist_api.Prelude.{
  ℕ, ◌≡◌, refl, ◌⊎◌, inl, inr, Bool, true, false, Option, none, some, List, [], ◌∷◌, arith, ltb,
  where_rows, Bool-cases,
}
use as_baptist_api.Prelude.Int.{ℤ}
use as_baptist_api.Problem.{
  not_found, preview_expired, preview_price_drift, budget_exceeded, from_code,
}
use as_baptist_api.Db.{
  Caller, Db, Date, CostBudget, CostPreview, Failure, problem, multiple_results, raise_exception,
  Result, ok, err, done, fail, Tx, active, run, ◌>>=◌, one_or_none,
}
use as_baptist_api.Cost.{assert_budget, assert_among, check_budget, current_budgets, month_spend}
use as_baptist_api.Ladder.{
  Env, ExecuteRequest, is_preview, price_drifted, check_found, check_loaded, check_preview,
}

assert_among-cases :
    (rows : List CostBudget) (spent projected : ℤ) (balance : Option ℤ) (db : Db)
    → (assert_among rows spent projected balance db ≡ done tt db)
      ⊎ (assert_among rows spent projected balance db ≡ fail raise_exception)
unfolding assert_among check_budget
assert_among-cases [] spent projected balance db = inr refl
assert_among-cases (b ∷ rest) spent projected none db = ground arith
assert_among-cases (b ∷ rest) spent projected (some x) db = ground arith

-- `cost.assert_budget` writes nothing.
pub assert_budget-cases :
    (today : Date) (projected : ℤ) (balance : Option ℤ) (c : Caller) (db : Db)
    → (assert_budget today projected balance c db ≡ done tt db)
      ⊎ (assert_budget today projected balance c db ≡ fail raise_exception)
unfolding assert_budget
assert_budget-cases today projected balance c db =
    assert_among-cases (current_budgets today c db) (month_spend today c db) projected balance db

-- A preview that may be executed now at the new price.
pub record IsExecutable (env : Env) (q : ExecuteRequest) (c : Caller) (db : Db) (p : CostPreview)
    : Type 0 where
  pub unexpired : ltb p.expires_at env.now_utc ≡ false
  pub steady : price_drifted q.reprice_cost_usd p.estimated_cost_usd ≡ false
  pub affordable :
      assert_budget env.today q.reprice_cost_usd q.provider_balance_usd c db ≡ done tt db

-- An outcome that wrote nothing and called nothing outside.
pub record Untouched (c : Caller) (db : Db) (n : ℕ) (t : Tx) : Type 0 where
  pub same_caller : t.caller ≡ c
  pub same_db : t.db ≡ db
  pub same_dispatches : t.dispatches ≡ n

pub untouched :
    (c : Caller) (db : Db) (n : ℕ) (aborted : Bool)
    → Untouched c db n (record (active c db n) { aborted = aborted })
untouched c db n aborted = record { same_caller = refl; same_db = refl; same_dispatches = refl }

abbrev pub Refused : {A : Type 0} → Caller → Db → ℕ → Result A × Tx → Type 0
Refused c db n p = (e : Failure) × (t : Tx) × (p ≡ (err e, t)) × Untouched c db n t

module _ (env : Env) (q : ExecuteRequest) (c : Caller) (db : Db) (n : ℕ) where
  check_found-cases :
      (p : CostPreview)
      → ((check_found env q p (active c db n) ≡ (ok tt, active c db n)) × IsExecutable env q c db p)
        ⊎ Refused c db n (check_found env q p (active c db n))
  unfolding check_found run
  check_found-cases p = elim (Bool-cases (ltb p.expires_at env.now_utc)) [
    | inl late ↦
        inr (problem (from_code preview_expired), active c db n, rw late, untouched c db n false)
    | inr early ↦ elim (Bool-cases (price_drifted q.reprice_cost_usd p.estimated_cost_usd)) [
      | inl drift ↦ inr (
        problem (from_code preview_price_drift),
        active c db n,
        rw early (rw drift),
        untouched c db n false,
      )
      | inr steady ↦
          elim (assert_budget-cases env.today q.reprice_cost_usd q.provider_balance_usd c db) [
            | inl fits ↦ inl (
              rw early (rw steady (rw fits)),
              record { unexpired = early; steady = steady; affordable = fits },
            )
            | inr over ↦ inr (
              problem (from_code budget_exceeded),
              record (active c db n) { aborted = true },
              rw early (rw steady (rw over)),
              untouched c db n true,
            )
          ]
    ]
  ]

  check_rows-cases :
      (rows : List CostPreview)
      → ((p : CostPreview) × (rows ≡ p ∷ [])
          × ((one_or_none rows >>= check_loaded env q) (active c db n) ≡ (ok tt, active c db n))
          × IsExecutable env q c db p)
        ⊎ Refused c db n ((one_or_none rows >>= check_loaded env q) (active c db n))
  unfolding check_loaded
  check_rows-cases [] =
      inr (problem (from_code not_found), active c db n, refl, untouched c db n false)
  check_rows-cases (p ∷ []) = elim (check_found-cases p) [
    | inl (e, x) ↦ inl (p, refl, e, x)
    | inr r ↦ inr r
  ]
  check_rows-cases (p ∷ p' ∷ rest) =
      inr (multiple_results, active c db n, refl, untouched c db n false)

  -- The checks find one preview that may be executed, or they refuse; either way nothing is written.
  pub check_preview-cases :
      ((p : CostPreview) × (where_rows
            (is_preview c q.tenant_id q.operation q.preview_id)
            db.previews
          ≡ p ∷ [])
        × (check_preview env q (active c db n) ≡ (ok tt, active c db n))
        × IsExecutable env q c db p)
      ⊎ Refused c db n (check_preview env q (active c db n))
  unfolding check_preview
  check_preview-cases =
      check_rows-cases (where_rows (is_preview c q.tenant_id q.operation q.preview_id) db.previews)
