-- ===== src/History/Invariant.antt =====
-- The session stays sound through quotes, executions, and added and changed locations.
use as_baptist_api.Ladder.Replay.{is_approval-approval_row}
use as_baptist_api.Locations.{create_location, update_location_route}
use as_baptist_api.History.Patches.{update_location_route-Keeps}
use as_baptist_api.History.Kept.{create_location-Keeps, create_preview-Keeps, kept-context-IsSound}
use as_baptist_api.Prelude.Int.{ℤ}
use as_baptist_api.Ladder.Outcome.{outcome_db, approved_db, IsCleared}
use as_baptist_api.Prelude.{
  if◌then◌else◌, Bool, ℕ, ◌+◌, ◌≤◌, ◌≡◌, refl, sym, true, String, some, List, ◌∷◌, arith, any_row,
  length,
}
use mathlib.Core.Path.{subst}
use as_baptist_api.Db.{executed, Caller, Approval, AuditCard, ActorRole, UuidText, Session, Result}
use as_baptist_api.Audit.{card_row}
use as_baptist_api.Ladder.{
  is_approval, mark_executed, executed_card, approval_row, Env, Dispatch, ExecuteRequest,
  ExecuteResponse, create_preview,
}
use as_baptist_api.History.Approvals.{IsDistinct, settle, settle-IsDistinct, length-settle}
use as_baptist_api.History.Sound.{
  HasCardsOf, IsSound, IsOutside, AreAudited, AreAudited-HasCardsOf, settle-AreAudited, is_card_of,
}
use as_baptist_api.History.Served.{
  Served, as_before, rolled_back, committed, execute-Served, completed_db,
}
use as_baptist_api.History.Steps.{
  Event, Run, start, executes, quotes, adds_location, changes_location,
}

module _ (env : Env) (q : ExecuteRequest) (dispatch : Dispatch) (c : Caller) (s : Session) where
  completed-IsSound :
      (x : String) (t : ℕ) (role : ActorRole)
      → IsOutside dispatch
      → IsCleared env q c s.db
      → c.tenant ≡ some t
      → IsSound s
      → IsSound (record s {
        db = completed_db env q dispatch c s x t role;
        dispatches = s.dispatches + 1;
      })
  completed-IsSound x t role outside cleared mine h = record {
    idle = h.idle;
    distinct =
        settle-IsDistinct c env.new_id env cost x left
          (subst IsDistinct (sym same) (cleared.admitted.unclashed, h.distinct));
    audited =
        subst (λ rows. AreAudited (card ∷ cards) (settle c env.new_id env cost x rows)) (sym same)
          (
            settled.0,
            settled.1,
            settle-AreAudited c env.new_id env cost x (card ∷ cards) s.db.approvals (
                AreAudited-HasCardsOf s.db (completed_db env q dispatch c s x t role) s.db.approvals
                  grown h.audited),
          );
    paid =
        rw (length-settle c env.new_id env cost x left)
          (subst (λ rows. length rows ≤ s.dispatches + 1) (sym same) (omega (arith, h.paid)));
  }
    where
      cost : ℤ
      cost = q.reprice_cost_usd

      cards : List AuditCard
      cards = (dispatch (approved_db env q dispatch c s.db s.dispatches)).1.cards

      left : List Approval
      left = (dispatch (approved_db env q dispatch c s.db s.dispatches)).1.approvals

      same : left ≡ approval_row env q ∷ s.db.approvals
      same = outside.keeps_approvals (approved_db env q dispatch c s.db s.dispatches)

      card : AuditCard
      card =
          card_row env.now (executed_card env q env.new_id) t role c
            (outcome_db env q dispatch c s.db s.dispatches x)

      own : t ≡ q.tenant_id
      own = cc (mine, cleared.admitted.own_tenant)

      carded :
          any_row (is_card_of (mark_executed env cost x (approval_row env q))) (card ∷ cards) ≡ true
      carded = rw own (ground arith)

      first : Bool → Approval
      first b = if b then mark_executed env cost x (approval_row env q) else approval_row env q

      settled :
          ((first (is_approval c env.new_id (approval_row env q))).status ≡ executed)
          × (any_row
                (is_card_of (first (is_approval c env.new_id (approval_row env q))))
                (card ∷ cards)
              ≡ true)
      settled =
          subst
            (λ b.
              ((first b).status ≡ executed)
              × (any_row (is_card_of (first b)) (card ∷ cards) ≡ true))
            (sym (is_approval-approval_row env q c cleared.admitted.own_tenant)) (refl, carded)

      grown : HasCardsOf s.db (completed_db env q dispatch c s x t role)
      grown p held =
          let kept = outside.keeps_cards (approved_db env q dispatch c s.db s.dispatches) p held in
          ground (arith, kept)

  Served-IsSound :
      {after : Result ExecuteResponse × Session}
      → IsOutside dispatch
      → Served env q dispatch c s after
      → IsSound s
      → IsSound after.1
  Served-IsSound outside (as_before a found same e) h = subst (λ p. IsSound p.1) (sym e) h
  Served-IsSound outside (rolled_back f n more e) h =
      subst (λ p. IsSound p.1) (sym e)
        (record {
          idle = h.idle;
          distinct = h.distinct;
          audited = h.audited;
          paid = omega (arith, h.paid, more);
        })
  Served-IsSound outside (committed x t role cleared returned mine e) h =
      subst (λ p. IsSound p.1) (sym e) (completed-IsSound x t role outside cleared mine h)

-- Whatever quotes, executions, additions of a location and changes of one are served, in whatever
-- order and with whatever outcome, a sound session stays sound: every committed approval is executed
-- and has its audit card, no two approvals share an identifier or a tenant and a key, and there are at
-- most as many approvals as calls of the outside work. The outside work of the executions is taken to
-- leave the approvals alone and to take no audit card away.
pub run-IsSound :
    (u : UuidText) (s t : Session) (es : List Event) → IsSound s → Run u s es t → IsSound t
run-IsSound u s _ _ h start = h
run-IsSound u s _ _ h (executes before ctx env q dispatch outside) =
    let now_sound = run-IsSound u s _ _ h before in
    Served-IsSound env q dispatch _ _ outside (execute-Served u ctx env q dispatch _ now_sound.idle)
      now_sound
run-IsSound u s _ _ h (quotes before ctx env q) =
    kept-context-IsSound u ctx (create_preview env q) _ (create_preview-Keeps env q)
      (run-IsSound u s _ _ h before)
run-IsSound u s _ _ h (adds_location before ctx now id tenant p) =
    kept-context-IsSound u ctx (create_location now id tenant p) _
      (create_location-Keeps now id tenant p) (run-IsSound u s _ _ h before)
run-IsSound u s _ _ h (changes_location before ctx w req now slug p) =
    kept-context-IsSound u ctx (update_location_route w req ctx now slug p) _
      (update_location_route-Keeps w req ctx now slug p) (run-IsSound u s _ _ h before)
