-- ===== src/Ladder/Replay.antt =====
-- Idempotency: what a second request with the same key meets.
use as_baptist_api.Problem.{duplicate_idempotency_key, from_code}
use as_baptist_api.Audit.{card_row}
use as_baptist_api.Ladder.CarryOut.{with_card}
use as_baptist_api.Ladder.Outcome.{
  execute_found, broke_off, approved_db, outcome_db, execute-Outcome, completed, turned_away,
  replayed, Outcome,
}
use as_baptist_api.Db.{problem, err, Failure, ok, active, Tx, Result, owned, Approval, Caller, Db}
use as_baptist_api.Ladder.{
  executed_card, executed_response, execute, existing_of, same_preview, ExecuteResponse, Codec,
  mark_executed, approval_row, is_approval, has_key, ExecuteRequest, Dispatch,
}
use as_baptist_api.Ladder.{Env}
use as_baptist_api.Prelude.{
  none, some, false, ◌≢◌, if◌then◌else◌, Option, ==_refl, inr, inl, ◌⊎◌, eq_refl, arith, ◌∷◌, true,
  update_rows, some, [], String, where_rows, List, Bool, ℕ, ◌+◌, ◌≡◌,
}
use mathlib.Core.Path.{subst, refl, sym, ap, ◌∙◌}
use mathlib.Core.Option

-- A dispatch that leaves the approvals alone.
abbrev pub KeepsApprovals : Dispatch → Type 0
KeepsApprovals dispatch = (db : Db) → (dispatch db).1.approvals ≡ db.approvals

-- An update that does not change whether a row is selected leaves an empty selection empty.
pub where_rows-update_rows_nil :
    {A : Type 0} (p s : A → Bool) (f : A → A) (rows : List A)
    → ((x : A) → p (f x) ≡ p x)
    → where_rows p rows ≡ []
    → where_rows p (update_rows s f rows) ≡ []
where_rows-update_rows_nil p s f [] keep none_before = refl
where_rows-update_rows_nil p s f (x ∷ rows) keep none_before =
    ground (arith, keep x, where_rows-update_rows_nil p s f rows keep)

module _ (env : Env) (q : ExecuteRequest) (c : Caller) where
  abbrev pub executed_row : String → Approval
  executed_row x = mark_executed env q.reprice_cost_usd x (approval_row env q)

  has_key-executed_row :
      (x : String)
      → c.tenant ≡ some q.tenant_id
      → has_key c q.tenant_id q.idempotency_key (executed_row x) ≡ true
  has_key-executed_row x bound = rw (bound, owned) (ground (arith, eq_refl q.idempotency_key))

  pub is_approval-approval_row :
      c.tenant ≡ some q.tenant_id → is_approval c env.new_id (approval_row env q) ≡ true
  is_approval-approval_row bound = rw (bound, owned) (ground arith)

  -- After the row has been inserted and updated it is the one row with its key.
  selected_after :
      (x : String) (rows : List Approval)
      → c.tenant ≡ some q.tenant_id
      → where_rows (has_key c q.tenant_id q.idempotency_key) rows ≡ []
      → where_rows (has_key c q.tenant_id q.idempotency_key) (
          update_rows
            (is_approval c env.new_id)
            (mark_executed env q.reprice_cost_usd x)
            (approval_row env q ∷ rows))
        ≡ executed_row x ∷ []
  selected_after x rows bound new = rw (is_approval-approval_row bound) (
      rw (has_key-executed_row x bound) (
        ap (λ rest. executed_row x ∷ rest)
          (where_rows-update_rows_nil (has_key c q.tenant_id q.idempotency_key)
            (is_approval c env.new_id) (mark_executed env q.reprice_cost_usd x) rows (λ a. refl)
            new)))

-- A replayed response names the same approval, status and cost; its result is the one returned
-- before, or what the database gives back of it.
pub record IsReplayOf (k : Codec) (r r' : ExecuteResponse) : Type 0 where
  pub same_approval : r'.approval_id ≡ r.approval_id
  pub same_status : r'.status ≡ r.status
  pub same_cost : r'.actual_cost_usd ≡ r.actual_cost_usd
  pub same_result : (r'.result ≡ r.result) ⊎ (r'.result ≡ Option.map k.stored r.result)

-- The transaction after a success holds one approval with the key, for the preview.
pub record Settled (env : Env) (q : ExecuteRequest) (c : Caller) (r : ExecuteResponse) (t : Tx)
    : Type 0 where
  pub approval : Approval
  pub tables : Db
  pub calls : ℕ
  pub now_at : t ≡ active c tables calls
  pub selected :
      where_rows (has_key c q.tenant_id q.idempotency_key) tables.approvals ≡ approval ∷ []
  pub same : same_preview approval.cost_preview_id q.preview_id ≡ true
  pub replay : IsReplayOf env.codec r (existing_of approval).response

same_preview_other :
    (o : Option ℕ) (a b : ℕ) → same_preview o a ≡ true → b ≢ a → same_preview o b ≡ false
same_preview_other none a b h other = cc
same_preview_other (some p) a b h other = ground arith

ok_injective : {A : Type 0} {a b : A} → ◌≡◌ {A = Result A} (ok a) (ok b) → a ≡ b
ok_injective h = cc

err-ne-ok : {A : Type 0} {a : A} {e : Failure} → ◌≡◌ {A = Result A} (err e) (ok a) → ⊥
err-ne-ok h = cc

module _ (env : Env) (q : ExecuteRequest) (dispatch : Dispatch) (c : Caller) (db : Db) (n : ℕ) where
  replays_itself :
      (a : Approval) {r : ExecuteResponse}
      → r ≡ (existing_of a).response
      → IsReplayOf env.codec r (existing_of a).response
  replays_itself a h = record {
    same_approval = ap (λ (x : ExecuteResponse). x.approval_id) (sym h);
    same_status = ap (λ (x : ExecuteResponse). x.status) (sym h);
    same_cost = ap (λ (x : ExecuteResponse). x.actual_cost_usd) (sym h);
    same_result = inl (ap (λ (x : ExecuteResponse). x.result) (sym h));
  }

  pub replays_executed :
      (x : String) {r : ExecuteResponse}
      → r ≡ executed_response env.new_id q.reprice_cost_usd x
      → IsReplayOf env.codec r (existing_of (executed_row env q c x)).response
  replays_executed x h = record {
    same_approval = ap (λ (x : ExecuteResponse). x.approval_id) (sym h);
    same_status = ap (λ (x : ExecuteResponse). x.status) (sym h);
    same_cost = ap (λ (x : ExecuteResponse). x.actual_cost_usd) (sym h);
    same_result = inr (ap (λ (x : ExecuteResponse). Option.map env.codec.stored x.result) (sym h));
  }

  pub settled_cases :
      {p : Result ExecuteResponse × Tx} {r : ExecuteResponse} {t : Tx}
      → Outcome env q dispatch c db n p
      → KeepsApprovals dispatch
      → p ≡ (ok r, t)
      → Settled env q c r t
  settled_cases (replayed a found same e) keeps h = record {
    approval = a;
    tables = db;
    calls = n;
    now_at = ap (λ x. x.1) (sym h ∙ e);
    selected = found;
    same = same;
    replay = replays_itself a (ok_injective (ap (λ x. x.0) (sym h ∙ e)));
  }
  settled_cases (turned_away (f, t', e, u)) keeps h = absurd (err-ne-ok (ap (λ x. x.0) (sym e ∙ h)))
  settled_cases (completed x t' role cleared returned bound known e) keeps h = record {
    approval = executed_row env q c x;
    tables =
        with_card
          (card_row env.now (executed_card env q env.new_id) t' role c
            (outcome_db env q dispatch c db n x))
          (outcome_db env q dispatch c db n x);
    calls = n + 1;
    now_at = ap (λ x. x.1) (sym h ∙ e);
    selected =
        rw (keeps (approved_db env q dispatch c db n))
          (selected_after env q c x db.approvals cleared.admitted.own_tenant cleared.new_key);
    same = ==_refl q.preview_id;
    replay = replays_executed x (ok_injective (ap (λ x. x.0) (sym h ∙ e)));
  }
  settled_cases (broke_off f t' cleared caller more e) keeps h =
      absurd (err-ne-ok (ap (λ x. x.0) (sym e ∙ h)))

  module _ (env' : Env) (q' : ExecuteRequest) (dispatch' : Dispatch) {r : ExecuteResponse} {t : Tx}
      (keeps : KeepsApprovals dispatch)
      (succeeded : execute env q dispatch (active c db n) ≡ (ok r, t))
      (same_tenant : q'.tenant_id ≡ q.tenant_id)
      (same_key : q'.idempotency_key ≡ q.idempotency_key) where
    settled : Settled env q c r t
    settled = settled_cases (execute-Outcome env q dispatch c db n) keeps succeeded

    later_request :
        (b : Bool)
        → same_preview settled.approval.cost_preview_id q'.preview_id ≡ b
        → execute env' q' dispatch' t ≡ (
          if b
              then ok (existing_of settled.approval).response
              else err (problem (from_code duplicate_idempotency_key)),
          t,
        )
    later_request b tested = rw settled.now_at (
        execute_found env' q' dispatch' c settled.tables settled.calls settled.approval
          (rw (same_tenant, same_key) settled.selected)
        ∙ ap
            (λ (x : Bool). (
              if x
                  then ok (existing_of settled.approval).response
                  else err (problem (from_code duplicate_idempotency_key)),
              active c settled.tables settled.calls,
            ))
            tested)

    -- After a success, under a dispatch that leaves the approvals alone, a later request of the tenant
    -- with the same key and the same preview returns a replay of that response, whatever else it asks
    -- and whenever it comes; it changes nothing and calls nothing.
    pub execute_replay :
        q'.preview_id ≡ q.preview_id
        → (r' : ExecuteResponse) × (execute env' q' dispatch' t ≡ (ok r', t))
          × IsReplayOf env.codec r r'
    execute_replay same_id = (
      (existing_of settled.approval).response,
      later_request true (
          subst (λ x. same_preview settled.approval.cost_preview_id x ≡ true) (sym same_id)
            settled.same),
      settled.replay,
    )

    -- After a success, under a dispatch that leaves the approvals alone, a later request of the
    -- tenant with the same key and another preview is refused as a duplicate; it changes nothing
    -- and calls nothing.
    pub execute_conflict :
        q'.preview_id ≢ q.preview_id
        → execute env' q' dispatch' t ≡ (err (problem (from_code duplicate_idempotency_key)), t)
    execute_conflict other = later_request false (
        same_preview_other settled.approval.cost_preview_id q.preview_id q'.preview_id settled.same
          other)
