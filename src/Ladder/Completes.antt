-- ===== src/Ladder/Completes.antt =====
-- When an execution goes through to the end: the progress half of the contract of `execute`.
use mathlib.Core.Path.{ap, ◌∙◌}
use as_baptist_api.Db.Sequence.{bind_ok}
use as_baptist_api.Prelude.{
  ℕ, ◌+◌, ◌≡◌, String, true, false, some, [], ◌∷◌, ◌==◌, ==_refl, where_rows, any_row,
}
use as_baptist_api.Problem.{from_code, duplicate_idempotency_key}
use as_baptist_api.Db.{
  Caller, Db, Tenant, Location, UserProfile, Approval, CostPreview, ActorRole, actor_role, active,
  ok, Sql, done, finish, run, recode_integrity, enforce_tenant_insert, ◌>>=◌, one_or_none,
}
use as_baptist_api.Audit.{
  card_row, refers, insert_card, card_with_role, card_for_tenant, write_card_sql,
}
use as_baptist_api.Ladder.{
  Env, ExecuteRequest, Dispatch, execute, execute_new, check_preview, check_found, check_loaded,
  is_preview, approve, carry_out, approval_row, insert_approval, insert_approval_row,
  checked_insert, clashes, executed_card, executed_response, fits_12_4,
}
use as_baptist_api.Ladder.Checks.{IsExecutable}
use as_baptist_api.Ladder.Approve.{HasReferences, IsAdmitted, with_approval}
use as_baptist_api.Ladder.CarryOut.{with_card, carry_out_done}
use as_baptist_api.Ladder.Outcome.{IsCleared, approved_db, outcome_db, execute_unseen}

check_found_ok :
    (env : Env) (q : ExecuteRequest) (c : Caller) (db : Db) (n : ℕ) (p : CostPreview)
    → IsExecutable env q c db p
    → check_found env q p (active c db n) ≡ (ok tt, active c db n)
unfolding check_found run
check_found_ok env q c db n p e = rw e.unexpired (rw e.steady (rw e.affordable))

pub check_preview_ok :
    (env : Env) (q : ExecuteRequest) (c : Caller) (db : Db) (n : ℕ) (p : CostPreview)
    → where_rows (is_preview c q.tenant_id q.operation q.preview_id) db.previews ≡ p ∷ []
    → IsExecutable env q c db p
    → check_preview env q (active c db n) ≡ (ok tt, active c db n)
unfolding check_preview check_loaded
check_preview_ok env q c db n p found e =
    ap (λ rows. (one_or_none rows >>= check_loaded env q) (active c db n)) found
    ∙ check_found_ok env q c db n p e

insert_approval_row_ok :
    (row : Approval) (db : Db)
    → any_row (clashes row) db.approvals ≡ false
    → HasReferences row db
    → insert_approval_row row db ≡ done row.id (with_approval row db)
unfolding insert_approval_row
insert_approval_row_ok row db free r =
    rw free (rw r.tenant (rw r.location (rw r.preview (rw r.approver))))

pub checked_insert_ok :
    {A : Type 0} (c : Caller) (t : ℕ) (insert : ℕ → Sql A)
    → c.tenant ≡ some t
    → checked_insert c (enforce_tenant_insert c (some t)) insert ≡ insert t
unfolding enforce_tenant_insert
checked_insert_ok c t insert bound = rw bound (rw (==_refl t) (rw (==_refl t)))

approve_ok :
    (env : Env) (q : ExecuteRequest) (c : Caller) (db : Db) (n : ℕ)
    → IsAdmitted c (approval_row env q) db
    → approve env q (active c db n)
      ≡ (ok env.new_id, active c (with_approval (approval_row env q) db) n)
unfolding approve run insert_approval
approve_ok env q c db n a =
    ap
      (λ (s : Sql ℕ).
        let (r, t) = finish (active c db n) s in
        (recode_integrity (from_code duplicate_idempotency_key) r, t))
      (checked_insert_ok c q.tenant_id
          (λ t. insert_approval_row (record (approval_row env q) { tenant_id = t }) db) a.own_tenant
        ∙ insert_approval_row_ok (approval_row env q) db a.unclashed a.references)

-- Every reference of the audit card has its row in the tables that the dispatch left.
pub record CanRecord (q : ExecuteRequest) (c : Caller) (id : ℕ) (db : Db) : Type 0 where
  pub tenant : any_row (λ (t : Tenant). t.id == q.tenant_id) db.tenants ≡ true
  pub location : refers (λ (l : Location). l.id) q.location_id db.locations ≡ true
  pub actor : refers (λ (u : UserProfile). u.id) c.actor db.users ≡ true
  pub approval : refers (λ (a : Approval). a.id) (some id) db.approvals ≡ true

write_card_sql_ok :
    (env : Env) (q : ExecuteRequest) (c : Caller) (id : ℕ) (db : Db) (role : ActorRole)
    → c.tenant ≡ some q.tenant_id
    → actor_role c.role ≡ some role
    → CanRecord q c id db
    → write_card_sql env.now (executed_card env q id) c db
      ≡ done db.next_card
          (with_card (card_row env.now (executed_card env q id) q.tenant_id role c db) db)
unfolding write_card_sql card_for_tenant card_with_role insert_card
write_card_sql_ok env q c id db role bound known r =
    ap (card_for_tenant env.now (executed_card env q id) c db) bound
    ∙ ap (card_with_role env.now (executed_card env q id) q.tenant_id c db) known
    ∙ rw r.tenant (rw r.location (rw r.actor (rw r.approval)))

module _ (env : Env) (q : ExecuteRequest) (dispatch : Dispatch) (c : Caller) (db : Db) (n : ℕ) where
  -- A request that is cleared completes, if the dispatch returns, the caller's role is an
  -- `actor_role`, the column holds the new price, and every reference of the audit card has its row in
  -- the tables after the dispatch. The response names the new approval, the price and the result of
  -- the dispatch, and the tables gain the outcome in the approval row and one audit card.
  pub execute_completes :
      (x : String) (role : ActorRole)
      → IsCleared env q c db
      → (dispatch (approved_db env q dispatch c db n)).0 ≡ ok x
      → actor_role c.role ≡ some role
      → fits_12_4 q.reprice_cost_usd ≡ true
      → CanRecord q c env.new_id (outcome_db env q dispatch c db n x)
      → execute env q dispatch (active c db n) ≡ (
        ok (executed_response env.new_id q.reprice_cost_usd x),
        active c
            (with_card
              (card_row env.now
                (executed_card env q env.new_id)
                q.tenant_id
                role
                c
                (outcome_db env q dispatch c db n x))
              (outcome_db env q dispatch c db n x))
            (n + 1),
      )
  unfolding execute_new
  execute_completes x role cleared returned known fits can =
      execute_unseen env q dispatch c db n cleared.new_key
      ∙ bind_ok (check_preview env q) (λ _. approve env q >>= carry_out env q dispatch)
          (active c db n)
          (check_preview_ok env q c db n cleared.preview cleared.found cleared.executable)
      ∙ bind_ok (approve env q) (carry_out env q dispatch) (active c db n)
          (approve_ok env q c db n cleared.admitted)
      ∙ carry_out_done env q dispatch env.new_id c (approved_db env q dispatch c db n) n x returned
          fits
          (write_card_sql_ok env q c env.new_id (outcome_db env q dispatch c db n x) role
            cleared.admitted.own_tenant known can)
