-- ===== src/Ladder/Outcome.antt =====
-- The contract of `execute`: the four ways in which a request can end, and that there is no other.
use mathlib.Core.Path.{refl, subst}
use as_baptist_api.Problem.{duplicate_idempotency_key, from_code}
use as_baptist_api.Audit.{card_row}
use as_baptist_api.Ladder.Checks.{check_preview-cases, untouched, Refused, IsExecutable}
use as_baptist_api.Ladder.CarryOut.{carry_out-cases, with_card, with_outcome}
use as_baptist_api.Ladder.Approve.{approve-cases, IsAdmitted, with_approval}
use as_baptist_api.Db.{
  pure, run, problem, one_or_none, multiple_results, Failure, actor_role, err, ActorRole, ◌>>=◌,
  active, ok, Approval, Tx, Result, CostPreview, Db, Caller,
}
use as_baptist_api.Ladder.{
  existing_among, find_existing, replay_or_execute, execute_new, execute, executed_card,
  executed_response, carry_out, approve, existing_of, same_preview, is_preview, has_key,
  approval_row, ExecuteResponse, Dispatch, ExecuteRequest, Env,
}
use as_baptist_api.Db.Sequence.{bind_ok, bind_err}
use as_baptist_api.Db.{Exec}
use as_baptist_api.Ladder.{check_preview}
use as_baptist_api.Prelude.{
  arith, if◌then◌else◌, sym, false, Bool-cases, List, ◌∙◌, ◌+◌, inl, ap, inr, some, true, ◌∷◌, [],
  ◌≡◌, where_rows, String, ℕ,
}

-- What must hold before the outside work may be called: the key is new, exactly one preview of the
-- tenant and the operation has the id, it may be executed at the new price, and the approval row was
-- admitted under the caller's tenant.
pub record IsCleared (env : Env) (q : ExecuteRequest) (c : Caller) (db : Db) : Type 0 where
  pub new_key : where_rows (has_key c q.tenant_id q.idempotency_key) db.approvals ≡ []
  pub preview : CostPreview
  pub found :
      where_rows (is_preview c q.tenant_id q.operation q.preview_id) db.previews ≡ preview ∷ []
  pub executable : IsExecutable env q c db preview
  pub admitted : IsAdmitted c (approval_row env q) db

module _ (env : Env) (q : ExecuteRequest) (dispatch : Dispatch) (c : Caller) (db : Db) (n : ℕ) where
  abbrev pub approved_db : Db
  approved_db = with_approval (approval_row env q) db

  abbrev pub outcome_db : String → Db
  outcome_db x = with_outcome env q dispatch env.new_id c approved_db n x

  pub data Outcome (p : Result ExecuteResponse × Tx) : Type 0 where
    replayed :
        (a : Approval)
        → where_rows (has_key c q.tenant_id q.idempotency_key) db.approvals ≡ a ∷ []
        → same_preview a.cost_preview_id q.preview_id ≡ true
        → p ≡ (ok (existing_of a).response, active c db n)
        → Outcome p
    turned_away : Refused c db n p → Outcome p
    completed :
        (x : String) (t : ℕ) (role : ActorRole)
        → IsCleared env q c db
        → (dispatch approved_db).0 ≡ ok x
        → c.tenant ≡ some t
        → actor_role c.role ≡ some role
        → p ≡ (
          ok (executed_response env.new_id q.reprice_cost_usd x),
          active c
              (with_card
                (card_row env.now (executed_card env q env.new_id) t role c (outcome_db x))
                (outcome_db x))
              (n + 1),
        )
        → Outcome p
    broke_off :
        (e : Failure) (t : Tx)
        → IsCleared env q c db
        → t.caller ≡ c
        → t.dispatches ≡ n + 1
        → p ≡ (err e, t)
        → Outcome p

  execute_checked :
      (p : CostPreview)
      → where_rows (has_key c q.tenant_id q.idempotency_key) db.approvals ≡ []
      → where_rows (is_preview c q.tenant_id q.operation q.preview_id) db.previews ≡ p ∷ []
      → IsExecutable env q c db p
      → Outcome ((approve env q >>= carry_out env q dispatch) (active c db n))
  execute_checked p new found executable = elim (approve-cases c db env q n) [
    | inr (d, f, _, failed, _) ↦ turned_away (
      f,
      record (active c db n) { aborted = true },
      bind_err (approve env q) (carry_out env q dispatch) (active c db n) failed,
      untouched c db n true,
    )
    | inl (inserted, admitted) ↦ elim (carry_out-cases env q dispatch env.new_id c approved_db n) [
      | inl (x, t, role, returned, bound, known, done_) ↦
          completed x t role (cleared admitted) returned bound known
            (bind_ok (approve env q) (carry_out env q dispatch) (active c db n) inserted ∙ done_)
      | inr (e, t, broke, called) ↦
          broke_off e t (cleared admitted) called.same_caller called.one_more
            (bind_ok (approve env q) (carry_out env q dispatch) (active c db n) inserted ∙ broke)
    ]
  ]
    where
      cleared : IsAdmitted c (approval_row env q) db → IsCleared env q c db
      cleared a = record {
        new_key = new;
        preview = p;
        found = found;
        executable = executable;
        admitted = a;
      }

  execute_new-Outcome :
      where_rows (has_key c q.tenant_id q.idempotency_key) db.approvals ≡ []
      → Outcome (execute_new env q dispatch (active c db n))
  unfolding execute_new
  execute_new-Outcome new =
      let rest : Unit {0} → Exec ExecuteResponse =
        λ _. approve env q >>= carry_out env q dispatch in
      elim (check_preview-cases env q c db n) [
        | inr (e, t, failed, same) ↦
            turned_away (e, t, bind_err (check_preview env q) rest (active c db n) failed, same)
        | inl (p, found, passed, executable) ↦
            subst Outcome (sym (bind_ok (check_preview env q) rest (active c db n) passed))
              (execute_checked p new found executable)
      ]

  from_rows : List Approval → Result ExecuteResponse × Tx
  from_rows rows =
      ((one_or_none rows >>= λ row. pure (existing_among row)) >>= replay_or_execute env q dispatch)
        (active c db n)

  replay-Outcome :
      (a : Approval)
      → where_rows (has_key c q.tenant_id q.idempotency_key) db.approvals ≡ a ∷ []
      → Outcome (from_rows (a ∷ []))
  unfolding from_rows replay_or_execute
  replay-Outcome a found = elim (Bool-cases (same_preview a.cost_preview_id q.preview_id)) [
    | inl same ↦ replayed a found same (rw same)
    | inr other ↦ turned_away (
      problem (from_code duplicate_idempotency_key),
      active c db n,
      rw other,
      untouched c db n false,
    )
  ]

  rows-Outcome :
      (rows : List Approval)
      → where_rows (has_key c q.tenant_id q.idempotency_key) db.approvals ≡ rows
      → Outcome (from_rows rows)
  unfolding from_rows replay_or_execute
  rows-Outcome [] new = execute_new-Outcome new
  rows-Outcome (a ∷ []) found = replay-Outcome a found
  rows-Outcome (a ∷ b ∷ rest) many =
      turned_away (multiple_results, active c db n, refl, untouched c db n false)

  -- In a transaction of which no statement has failed, every request ends in one of four ways. It
  -- replays the one approval that already has the tenant's key, for the same preview; it is
  -- refused, with nothing written and nothing called; it is completed, having been cleared, with
  -- the dispatch called once, the approval row holding its outcome and one audit card in the
  -- caller's name; or it breaks off in an error after it was cleared and the dispatch called once.
  pub execute-Outcome : Outcome (execute env q dispatch (active c db n))
  unfolding execute find_existing run from_rows
  execute-Outcome =
      rows-Outcome (where_rows (has_key c q.tenant_id q.idempotency_key) db.approvals) refl

  execute-from_rows :
      execute env q dispatch (active c db n)
      ≡ from_rows (where_rows (has_key c q.tenant_id q.idempotency_key) db.approvals)
  unfolding execute find_existing run from_rows
  execute-from_rows = refl

  -- A key that no approval has is executed.
  pub execute_unseen :
      where_rows (has_key c q.tenant_id q.idempotency_key) db.approvals ≡ []
      → execute env q dispatch (active c db n) ≡ execute_new env q dispatch (active c db n)
  unfolding from_rows replay_or_execute
  execute_unseen new = execute-from_rows ∙ ap from_rows new

  -- Once there is one approval with the key, it is replayed or the key is refused.
  pub execute_found :
      (a : Approval)
      → where_rows (has_key c q.tenant_id q.idempotency_key) db.approvals ≡ a ∷ []
      → execute env q dispatch (active c db n) ≡ (
        if same_preview a.cost_preview_id q.preview_id
            then ok (existing_of a).response
            else err (problem (from_code duplicate_idempotency_key)),
        active c db n,
      )
  unfolding from_rows replay_or_execute
  execute_found a found = execute-from_rows ∙ ap from_rows found ∙ ground (arith)
