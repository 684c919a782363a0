-- ===== src/Ladder/Execute.antt =====
-- `execute` and `_find_existing_approval`.
use as_baptist_api.Prelude.{
  ℕ, ◌+◌, ◌*◌, Bool, true, false, ◌&&◌, not, String, Option, none, some, List, ◌∷◌, ltb, ◌==◌,
  str_eq, any_row, where_rows, update_rows, if◌then◌else◌,
}
use as_baptist_api.Prelude.Int.{ℤ, pos, negsuc, pos_part, neg_part, ◌-ℤ◌}
use as_baptist_api.Problem.{
  ProblemCode, not_found, duplicate_idempotency_key, preview_expired, preview_price_drift,
  budget_exceeded, from_code,
}
use as_baptist_api.Db.{
  Caller, Db, Tenant, Location, UserProfile, CostPreview, Approval, executing, executed, owned,
  enforce_tenant_insert, Sql, done, fail, unique_violation, foreign_key_violation,
  numeric_out_of_range, problem, database, Result, err, Statement, Exec, run, ◌>>=◌, ◌>>◌, pure,
  raise, raise_if, except_integrity, except_dbapi, one_or_none,
}
use as_baptist_api.Cost.{assert_budget}
use as_baptist_api.Audit.{CardInput, refers, write_card}
use as_baptist_api.Ladder.Types.{Env, ExecuteRequest, ExecuteResponse, ExistingApproval, Dispatch}
use as_baptist_api.Ladder.Gates.{◌⧺◌}
use as_baptist_api.Ladder.Preview.{fits_12_4, checked_insert, load_preview}

abbrev pub raise_code : {A : Type 0} → ProblemCode → Exec A
raise_code code = raise (problem (from_code code))

-- The `where` clause of `_find_existing_approval`, with the policy `approval_select_tenant`.
abbrev pub has_key : Caller → ℕ → String → Approval → Bool
has_key c tenant key a =
    owned c a.tenant_id && (a.tenant_id == tenant && str_eq a.idempotency_key key)

abbrev pub select_approvals : ℕ → String → Statement (List Approval)
select_approvals tenant key c db = done (where_rows (has_key c tenant key) db.approvals) db

abbrev pub existing_of : Approval → ExistingApproval
existing_of a = record {
  cost_preview_id = a.cost_preview_id;
  response = record {
    approval_id = a.id;
    status = a.status;
    actual_cost_usd = a.actual_cost_usd;
    result = a.result;
  };
}

abbrev pub existing_among : Option Approval → Option ExistingApproval
existing_among none = none
existing_among (some a) = some (existing_of a)

unfoldable pub find_existing : ℕ → String → Exec (Option ExistingApproval)
unfolding run
find_existing tenant key = do
  rows ← run (select_approvals tenant key)
  row ← one_or_none rows
  pure (existing_among row)

-- `abs(reprice - baseline) / baseline > DRIFT_TOLERANCE` where the baseline is not zero, multiplied
-- out: |r - b| / b > 1 / 10. A negative baseline gives a quotient of zero or less.
unfoldable pub price_drifted : ℤ → ℤ → Bool
price_drifted reprice (pos b) =
    ltb 0 b && ltb b (10 * (pos_part (reprice -ℤ pos b) + neg_part (reprice -ℤ pos b)))
price_drifted reprice (negsuc b) = false

-- The checks of a preview that was found: its expiry, the drift of the price, and the budget.
unfoldable pub check_found : Env → ExecuteRequest → CostPreview → Exec (Unit {0})
unfolding from_code run
check_found env q preview = do
  raise_if (ltb preview.expires_at env.now_utc) (problem (from_code preview_expired))
  raise_if (price_drifted q.reprice_cost_usd preview.estimated_cost_usd)
      (problem (from_code preview_price_drift))
  except_dbapi (from_code budget_exceeded)
      (run (assert_budget env.today q.reprice_cost_usd q.provider_balance_usd))

unfoldable pub check_loaded : Env → ExecuteRequest → Option CostPreview → Exec (Unit {0})
unfolding check_found from_code
check_loaded env q none = raise_code not_found
check_loaded env q (some preview) = check_found env q preview

unfoldable pub check_preview : Env → ExecuteRequest → Exec (Unit {0})
unfolding load_preview check_loaded
check_preview env q = do
  loaded ← load_preview q.tenant_id q.operation q.preview_id
  check_loaded env q loaded

-- The row of `insert into approval`, with the defaults of its columns.
abbrev pub approval_row : Env → ExecuteRequest → Approval
approval_row env q = record {
  id = env.new_id;
  tenant_id = q.tenant_id;
  location_id = q.location_id;
  cost_preview_id = some q.preview_id;
  operation = q.operation;
  approved_by = q.approved_by;
  approved_at = env.now;
  idempotency_key = q.idempotency_key;
  status = executing;
  executed_at = none;
  actual_cost_usd = none;
  result = none;
  error = none;
}

-- The row that an unique constraint of `approval` puts in the way of another: the same id, or the
-- same tenant and key.
abbrev pub clashes : Approval → Approval → Bool
clashes row a =
    if a.id == row.id
    then true
    else a.tenant_id == row.tenant_id && str_eq a.idempotency_key row.idempotency_key

-- The unique constraints and the foreign keys of `approval`
-- (`migrations/versions/0005_approval_ladder.py`).
unfoldable pub insert_approval_row : Approval → Db → Sql ℕ
insert_approval_row row db =
    if any_row (clashes row) db.approvals
    then fail unique_violation
    else if not (any_row (λ (t : Tenant). t.id == row.tenant_id) db.tenants)
    then fail foreign_key_violation
    else if not (refers (λ (l : Location). l.id) row.location_id db.locations)
    then fail foreign_key_violation
    else if not (refers (λ (p : CostPreview). p.id) row.cost_preview_id db.previews)
    then fail foreign_key_violation
    else if not (any_row (λ (u : UserProfile). u.id == row.approved_by) db.users)
    then fail foreign_key_violation
    else done row.id (record db { approvals = row ∷ db.approvals })

unfoldable pub insert_approval : Approval → Statement ℕ
unfolding insert_approval_row enforce_tenant_insert
insert_approval row c db =
    checked_insert c (enforce_tenant_insert c (some row.tenant_id))
      (λ t. insert_approval_row (record row { tenant_id = t }) db)

abbrev pub mark_executed : Env → ℤ → String → Approval → Approval
mark_executed env cost result a = record a {
  status = executed;
  executed_at = some env.now;
  actual_cost_usd = some cost;
  result = some (env.codec.stored result);
}

-- `where id = :id`, with the policy `approval_update_tenant`.
abbrev pub is_approval : Caller → ℕ → Approval → Bool
is_approval c id a = owned c a.tenant_id && a.id == id

-- `update approval set status = 'executed', …`: a cost that the column does not hold is an error
-- if there is a row to update.
unfoldable pub update_approval : Env → ℕ → ℤ → String → Statement (Unit {0})
update_approval env id cost result c db =
    if any_row (is_approval c id) db.approvals && not (fits_12_4 cost)
    then fail numeric_out_of_range
    else done tt (record db {
      approvals = update_rows (is_approval c id) (mark_executed env cost result) db.approvals;
    })

abbrev pub is_database : {A : Type 0} → Result A → Bool
is_database (err (database e)) = true
is_database _ = false

-- `await dispatch()`: the call is counted, and a database error in it aborts the transaction.
unfoldable pub call_dispatch : Dispatch → Exec String
call_dispatch dispatch t =
    let (r, db) = dispatch t.db in
    (
      r,
      record t {
        db = db;
        aborted = if is_database r then true else t.aborted;
        dispatches = t.dispatches + 1;
      },
    )

abbrev pub executed_card : Env → ExecuteRequest → ℕ → CardInput
executed_card env q id = record {
  location_id = q.location_id;
  verb = "execute";
  action = "Executed " ⧺ q.operation;
  resource_type = q.operation;
  resource_id = some (env.codec.uuid_text id);
  approval_id = some id;
  detail = none;
  simulated = false;
}

abbrev pub executed_response : ℕ → ℤ → String → ExecuteResponse
executed_response id cost result = record {
  approval_id = id;
  status = executed;
  actual_cost_usd = some cost;
  result = some result;
}

-- The approval row.
unfoldable pub approve : Env → ExecuteRequest → Exec ℕ
unfolding insert_approval from_code run
approve env q =
    except_integrity (from_code duplicate_idempotency_key)
      (run (insert_approval (approval_row env q)))

-- The dispatch, the outcome in the approval row, and the audit card.
unfoldable pub carry_out : Env → ExecuteRequest → Dispatch → ℕ → Exec ExecuteResponse
unfolding call_dispatch update_approval write_card run
carry_out env q dispatch id = do
  result ← call_dispatch dispatch
  run (update_approval env id q.reprice_cost_usd result)
  write_card env.now (executed_card env q id)
  pure (executed_response id q.reprice_cost_usd result)

unfoldable pub execute_new : Env → ExecuteRequest → Dispatch → Exec ExecuteResponse
unfolding check_preview approve carry_out
execute_new env q dispatch = do check_preview env q; id ← approve env q; carry_out env q dispatch id

abbrev pub same_preview : Option ℕ → ℕ → Bool
same_preview none id = false
same_preview (some p) id = p == id

-- The replay of an approval that is already there, or a new execution.
unfoldable pub replay_or_execute :
    Env → ExecuteRequest → Dispatch → Option ExistingApproval → Exec ExecuteResponse
unfolding execute_new from_code
replay_or_execute env q dispatch none = execute_new env q dispatch
replay_or_execute env q dispatch (some e) =
    if same_preview e.cost_preview_id q.preview_id
    then pure e.response
    else raise_code duplicate_idempotency_key

unfoldable pub execute : Env → ExecuteRequest → Dispatch → Exec ExecuteResponse
unfolding find_existing replay_or_execute
execute env q dispatch = do
  existing ← find_existing q.tenant_id q.idempotency_key
  replay_or_execute env q dispatch existing
