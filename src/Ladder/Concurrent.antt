-- ===== src/Ladder/Concurrent.antt =====
-- Two executions at the same time. Each statement of a transaction sees what others have committed
-- before it, and the insertion of an approval waits for a transaction that holds the same key: this is
-- PostgreSQL's `read committed`. So what others commit is a change of the tables between statements.
use as_baptist_api.Ladder.Outcome.{execute-Outcome}
use as_baptist_api.Ladder.Replay.{settled_cases, KeepsApprovals}
use mathlib.Core.Path.{refl, ap}
use mathlib.Core.Path.{ap₂}
use as_baptist_api.Prelude.Selection.{selected_passes, selected_any}
use as_baptist_api.Prelude.{
  if◌then◌else◌, ℕ, ◌≡◌, ◌∙◌, Bool, true, false, ◌&&◌, String, Option, none, some, List, [], ◌∷◌,
  arith, any_row, where_rows, ◌==◌, str_eq, inl, inr, Bool-cases,
}
use as_baptist_api.Problem.{duplicate_idempotency_key}
use as_baptist_api.Db.{
  err, Result, Caller, Db, Approval, Exec, Tx, ok, active, run, ◌>>=◌, ◌>>◌, pure, one_or_none,
}
use as_baptist_api.Db.Sequence.{bind_ok, bind_err}
use as_baptist_api.Ladder.{
  execute_new, replay_or_execute, execute, Env, ExecuteRequest, ExecuteResponse, ExistingApproval,
  Dispatch, find_existing, check_preview, approve, carry_out, approval_row, clashes, existing_of,
  existing_among, same_preview, raise_code, has_key,
}
use as_baptist_api.Ladder.Checks.{check_preview-cases}
use as_baptist_api.Ladder.Approve.{approve-cases}

-- What others commit between two statements.
abbrev pub others_commit : (Db → Db) → Exec (Unit {0})
others_commit f t = (ok tt, record t { db = f t.db })

-- `execute` from the lookup of the key on, where others commit before the checks and before the
-- insertion.
abbrev pub replay_or_execute_among :
    Env → ExecuteRequest → Dispatch → (Db → Db) → Option ExistingApproval → Exec ExecuteResponse
replay_or_execute_among env q dispatch before_insert none = do
  check_preview env q
  others_commit before_insert
  id ← approve env q
  carry_out env q dispatch id
replay_or_execute_among env q dispatch before_insert (some e) =
    if same_preview e.cost_preview_id q.preview_id
    then pure e.response
    else raise_code duplicate_idempotency_key

abbrev pub execute_among :
    Env → ExecuteRequest → Dispatch → (Db → Db) → (Db → Db) → Exec ExecuteResponse
execute_among env q dispatch before_checks before_insert = do
  existing ← find_existing q.tenant_id q.idempotency_key
  others_commit before_checks
  replay_or_execute_among env q dispatch before_insert existing

-- An approval of the tenant with the key.
abbrev pub holds_key : ℕ → String → Approval → Bool
holds_key tenant key a = a.tenant_id == tenant && str_eq a.idempotency_key key

module _ (env : Env) (q : ExecuteRequest) (dispatch : Dispatch) (before_insert : Db → Db)
    (c : Caller) (n : ℕ) where
  clashes_held :
      (rows : List Approval)
      → any_row (holds_key q.tenant_id q.idempotency_key) rows ≡ true
      → any_row (clashes (approval_row env q)) rows ≡ true
  clashes_held [] h = h
  clashes_held (a ∷ rows) h = elim (Bool-cases (clashes (approval_row env q) a)) [
    | inl clash ↦ ground (arith, clash)
    | inr free ↦
        let later : any_row (holds_key q.tenant_id q.idempotency_key) rows ≡ true =
          ground (arith, h, free) in
        let rest = clashes_held rows later in ground (arith, rest)
  ]

  insertion_refused :
      (db : Db)
      → any_row (holds_key q.tenant_id q.idempotency_key) db.approvals ≡ true
      → ((approve env q >>= carry_out env q dispatch) (active c db n)).1.dispatches ≡ n
  insertion_refused db held = elim (approve-cases c db env q n) [
    | inl (inserted, admitted) ↦ absurd (cc (clashes_held db.approvals held, admitted.unclashed))
    | inr (e, f, failed, refused, kind) ↦
        ap (λ p. p.1.dispatches)
          (bind_err (approve env q) (carry_out env q dispatch) (active c db n) refused)
  ]

  new_refused :
      (db : Db)
      → any_row (holds_key q.tenant_id q.idempotency_key) (before_insert db).approvals ≡ true
      → (replay_or_execute_among env q dispatch before_insert none (active c db n)).1.dispatches ≡ n
  new_refused db held = elim (check_preview-cases env q c db n) [
    | inr (e, t, failed, same) ↦
        ap (λ x. x.1.dispatches) (bind_err (check_preview env q) (λ _. rest) (active c db n) failed)
        ∙ same.same_dispatches
    | inl (p, found, passed, executable) ↦
        ap (λ x. x.1.dispatches) (bind_ok (check_preview env q) (λ _. rest) (active c db n) passed)
        ∙ insertion_refused (before_insert db) held
  ]
    where
      rest : Exec ExecuteResponse
      rest = others_commit before_insert >>= λ _. (approve env q >>= carry_out env q dispatch)

  replayed_calls :
      (b : Bool) (r : ExecuteResponse) (t : Tx)
      → ((if b then pure r else raise_code duplicate_idempotency_key) t).1.dispatches ≡ t.dispatches
  replayed_calls true r t = refl
  replayed_calls false r t = refl

  module _ (before_checks : Db → Db) where
    among_rows :
        (db : Db) (rows : List Approval)
        → any_row
            (holds_key q.tenant_id q.idempotency_key)
            (before_insert (before_checks db)).approvals
          ≡ true
        → (((one_or_none rows >>= λ row. pure (existing_among row)) >>= λ e.
              (others_commit before_checks >>= λ _.
              replay_or_execute_among env q dispatch before_insert e))
            (active c db n)).1.dispatches
          ≡ n
    among_rows db [] held = new_refused (before_checks db) held
    among_rows db (a ∷ []) held =
        replayed_calls (same_preview a.cost_preview_id q.preview_id) (existing_of a).response
          (active c (before_checks db) n)
    among_rows db (a ∷ b ∷ rows) held = refl

    -- An execution does not call the dispatch if others have committed an approval of its tenant
    -- with its key before it inserts its own, whatever else they commit before its checks and before
    -- its insertion.
    pub late_key_never_dispatched :
        (db : Db)
        → any_row
            (holds_key q.tenant_id q.idempotency_key)
            (before_insert (before_checks db)).approvals
          ≡ true
        → (execute_among env q dispatch before_checks before_insert (active c db n)).1.dispatches
          ≡ n
    unfolding find_existing run
    late_key_never_dispatched db held =
        among_rows db (where_rows (has_key c q.tenant_id q.idempotency_key) db.approvals) held

-- Where others commit nothing in between, it is `execute`.
replay_or_execute_among_alone :
    (env : Env) (q : ExecuteRequest) (dispatch : Dispatch) (o : Option ExistingApproval) (t : Tx)
    → replay_or_execute_among env q dispatch (λ db. db) o t ≡ replay_or_execute env q dispatch o t
unfolding replay_or_execute execute_new
replay_or_execute_among_alone env q dispatch none t = refl
replay_or_execute_among_alone env q dispatch (some e) t = refl

continued_alone :
    (env : Env) (q : ExecuteRequest) (dispatch : Dispatch) (r : Result (Option ExistingApproval))
    (t : Tx)
    → ((λ (x : Tx). (r, t)) >>= λ o.
          (others_commit (λ db. db) >>= λ _. replay_or_execute_among env q dispatch (λ db. db) o))
        t
      ≡ ((λ (x : Tx). (r, t)) >>= replay_or_execute env q dispatch) t
continued_alone env q dispatch (ok o) t = replay_or_execute_among_alone env q dispatch o t
continued_alone env q dispatch (err f) t = refl

execute_among_alone :
    (env : Env) (q : ExecuteRequest) (dispatch : Dispatch) (t : Tx)
    → execute_among env q dispatch (λ db. db) (λ db. db) t ≡ execute env q dispatch t
unfolding execute
execute_among_alone env q dispatch t =
    let found = find_existing q.tenant_id q.idempotency_key t in
    continued_alone env q dispatch found.0 found.1

module _ (env env' : Env) (q q' : ExecuteRequest) (dispatch dispatch' : Dispatch) (c c' : Caller)
    (db db' : Db) (n n' : ℕ) (before_checks before_insert : Db → Db) where
  -- Two executions under one key of a tenant do not both call their dispatch if the first succeeds
  -- and commits before the second inserts its approval: the second calls nothing, though it may have
  -- looked for the key and checked its preview before the first has committed. The dispatch of the
  -- first leaves the approvals alone, and the approvals that it leaves are still there.
  pub overlapping_once :
      {r : ExecuteResponse} {t : Tx}
      → KeepsApprovals dispatch
      → execute env q dispatch (active c db n) ≡ (ok r, t)
      → q'.tenant_id ≡ q.tenant_id
      → q'.idempotency_key ≡ q.idempotency_key
      → ((p : Approval → Bool)
          → any_row p t.db.approvals ≡ true
          → any_row p (before_insert (before_checks db')).approvals ≡ true)
      → (execute_among env' q' dispatch' before_checks before_insert
          (active c' db' n')).1.dispatches
        ≡ n'
  overlapping_once keeps succeeded same_tenant same_key still_there =
      let s =
        settled_cases env q dispatch c db n (execute-Outcome env q dispatch c db n) keeps
          succeeded in
      let passes =
        selected_passes (has_key c q.tenant_id q.idempotency_key) s.approval s.tables.approvals
          s.selected in
      let held : holds_key q.tenant_id q.idempotency_key s.approval ≡ true =
        ground (arith, passes) in
      let there =
        selected_any (has_key c q.tenant_id q.idempotency_key)
          (holds_key q.tenant_id q.idempotency_key) s.approval s.tables.approvals s.selected held in
      let in_tables =
        ap (λ (x : Tx). any_row (holds_key q.tenant_id q.idempotency_key) x.db.approvals) s.now_at
        ∙ there in
      late_key_never_dispatched env' q' dispatch' before_insert c' n' before_checks db' (
        ap₂ (λ k key. any_row (holds_key k key) (before_insert (before_checks db')).approvals)
          same_tenant same_key
        ∙ still_there (holds_key q.tenant_id q.idempotency_key) in_tables)
