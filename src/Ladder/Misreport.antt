-- ===== src/Ladder/Misreport.antt =====
-- How `except IntegrityError` of `execute` reports an approver without a row.
use mathlib.Core.Path.{ap, ◌∙◌}
use as_baptist_api.Db.Sequence.{bind_ok, bind_err}
use as_baptist_api.Prelude.{ℕ, ◌≡◌, true, false, some, [], ◌∷◌, where_rows, any_row, ◌==◌}
use as_baptist_api.Problem.{from_code, duplicate_idempotency_key}
use as_baptist_api.Db.{
  Caller, Db, Tenant, Location, UserProfile, CostPreview, active, err, problem, Sql, fail,
  foreign_key_violation, finish, run, recode_integrity, ◌>>=◌,
}
use as_baptist_api.Audit.{refers}
use as_baptist_api.Ladder.{
  check_preview, Env, ExecuteRequest, Dispatch, execute, execute_new, approve, carry_out,
  approval_row, insert_approval, insert_approval_row, has_key, is_preview, clashes,
}
use as_baptist_api.Ladder.Checks.{IsExecutable}
use as_baptist_api.Ladder.Completes.{check_preview_ok, checked_insert_ok}
use as_baptist_api.Ladder.Outcome.{execute_unseen}

-- A request that nothing speaks against, except that its approver has no row in `user_profile`.
pub record LacksApprover (env : Env) (q : ExecuteRequest) (c : Caller) (db : Db) : Type 0 where
  pub new_key : where_rows (has_key c q.tenant_id q.idempotency_key) db.approvals ≡ []
  pub preview : CostPreview
  pub found :
      where_rows (is_preview c q.tenant_id q.operation q.preview_id) db.previews ≡ preview ∷ []
  pub executable : IsExecutable env q c db preview
  pub own_tenant : c.tenant ≡ some q.tenant_id
  pub unclashed : any_row (clashes (approval_row env q)) db.approvals ≡ false
  pub tenant : any_row (λ (t : Tenant). t.id == q.tenant_id) db.tenants ≡ true
  pub location : refers (λ (l : Location). l.id) q.location_id db.locations ≡ true
  pub preview_row : refers (λ (p : CostPreview). p.id) (some q.preview_id) db.previews ≡ true
  pub no_approver : any_row (λ (u : UserProfile). u.id == q.approved_by) db.users ≡ false

module _ (env : Env) (q : ExecuteRequest) (dispatch : Dispatch) (c : Caller) (db : Db) (n : ℕ) where
  insert_approval_row_lacks :
      LacksApprover env q c db
      → insert_approval_row (approval_row env q) db ≡ fail foreign_key_violation
  unfolding insert_approval_row
  insert_approval_row_lacks h =
      rw h.unclashed (rw h.tenant (rw h.location (rw h.preview_row (rw h.no_approver))))

  approve_lacks :
      LacksApprover env q c db
      → approve env q (active c db n) ≡ (
        err (problem (from_code duplicate_idempotency_key)),
        record (active c db n) { aborted = true },
      )
  unfolding approve run insert_approval
  approve_lacks h =
      ap
        (λ (s : Sql ℕ).
          let (r, t) = finish (active c db n) s in
          (recode_integrity (from_code duplicate_idempotency_key) r, t))
        (checked_insert_ok c q.tenant_id
            (λ t. insert_approval_row (record (approval_row env q) { tenant_id = t }) db)
            h.own_tenant
          ∙ insert_approval_row_lacks h)

  -- A request that passes every check, and whose key no approval has, but whose approver has no row
  -- in `user_profile`, is reported as a duplicate idempotency key, since the foreign key fails.
  pub missing_approver_is_duplicate :
      LacksApprover env q c db
      → execute env q dispatch (active c db n) ≡ (
        err (problem (from_code duplicate_idempotency_key)),
        record (active c db n) { aborted = true },
      )
  unfolding execute_new
  missing_approver_is_duplicate h =
      execute_unseen env q dispatch c db n h.new_key
      ∙ bind_ok (check_preview env q) (λ _. approve env q >>= carry_out env q dispatch)
          (active c db n) (check_preview_ok env q c db n h.preview h.found h.executable)
      ∙ bind_err (approve env q) (carry_out env q dispatch) (active c db n) (approve_lacks h)
