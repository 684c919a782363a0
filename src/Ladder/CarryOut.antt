-- ===== src/Ladder/CarryOut.antt =====
-- What the dispatch and the steps after it leave behind.
use as_baptist_api.Ladder.{
  fits_12_4, mark_executed, is_database, executed_response, executed_card, call_dispatch,
  is_approval, ExecuteResponse, update_approval, carry_out, Dispatch, ExecuteRequest, Env,
}
use as_baptist_api.Prelude.{
  arith, update_rows, String, ◌==◌, ℕ, ◌+◌, ◌≡◌, refl, ap, ◌∙◌, ◌⊎◌, inl, inr, Bool, true, false,
  not, some, ◌∷◌, any_row, Option-cases, if◌then◌else◌,
}
use as_baptist_api.Db.{
  pure, ◌>>◌, ◌>>=◌, database, finish, active, run, numeric_out_of_range, Tx, err, Failure, ok,
  Result, UserProfile, Location, foreign_key_violation, Tenant, check_violation, invalid_text,
  insufficient_privilege, Caller, Db, Approval, AuditCard, ActorRole, actor_role, DbError, Sql,
  done, fail,
}
use as_baptist_api.Audit.{
  write_card, refers, card_with_role, card_for_tenant, is_verb, CardInput, card_row, insert_card,
  write_card_sql,
}

abbrev pub with_card : AuditCard → Db → Db
with_card row db = record db { cards = row ∷ db.cards; next_card = db.next_card + 1 }

-- A guard that fails with an error, before a statement that succeeds or fails.
pub if_fail-cases :
    {A : Type 0} (b : Bool) (e : DbError) {s good : Sql A}
    → (s ≡ good) ⊎ ((d : DbError) × (s ≡ fail d))
    → ((if b then fail e else s) ≡ good) ⊎ ((d : DbError) × ((if b then fail e else s) ≡ fail d))
if_fail-cases true e h = inr (e, refl)
if_fail-cases false e h = h

pub insert_card-cases :
    (row : AuditCard) (db : Db)
    → (insert_card row db ≡ done row.id (with_card row db))
      ⊎ ((e : DbError) × (insert_card row db ≡ fail e))
unfolding insert_card
insert_card-cases row db = if_fail-cases (not (is_verb row.verb)) check_violation (
    if_fail-cases (not (any_row (λ (t : Tenant). t.id == row.tenant_id) db.tenants))
      foreign_key_violation
      (if_fail-cases (not (refers (λ (l : Location). l.id) row.location_id db.locations))
        foreign_key_violation
        (if_fail-cases (not (refers (λ (u : UserProfile). u.id) row.actor_id db.users))
          foreign_key_violation
          (if_fail-cases (not (refers (λ (a : Approval). a.id) row.approval_id db.approvals))
            foreign_key_violation (inl refl)))))

-- The card is written under the caller's tenant, actor and role, or the statement fails.
pub write_card_sql-cases :
    (now : ℕ) (p : CardInput) (c : Caller) (db : Db)
    → ((t : ℕ) × (role : ActorRole) × (c.tenant ≡ some t)
        × (actor_role c.role ≡ some role)
        × (write_card_sql now p c db
            ≡ done db.next_card (with_card (card_row now p t role c db) db)))
      ⊎ ((e : DbError) × (write_card_sql now p c db ≡ fail e))
unfolding write_card_sql card_for_tenant card_with_role
write_card_sql-cases now p c db = elim (Option-cases c.tenant) [
  | inl unbound ↦ inr (insufficient_privilege, ap (card_for_tenant now p c db) unbound)
  | inr (t, bound) ↦ elim (Option-cases (actor_role c.role)) [
    | inl unknown ↦ inr (
      invalid_text,
      ap (card_for_tenant now p c db) bound ∙ ap (card_with_role now p t c db) unknown,
    )
    | inr (role, known) ↦
        let opened : write_card_sql now p c db ≡ insert_card (card_row now p t role c db) db =
          ap (card_for_tenant now p c db) bound ∙ ap (card_with_role now p t c db) known in
        elim (insert_card-cases (card_row now p t role c db) db) [
          | inl inserted ↦ inl (t, role, bound, known, opened ∙ inserted)
          | inr (e, failed) ↦ inr (e, opened ∙ failed)
        ]
  ]
]

Result-cases : {A : Type 0} (r : Result A) → ((a : A) × (r ≡ ok a)) ⊎ ((e : Failure) × (r ≡ err e))
Result-cases (ok a) = inl (a, refl)
Result-cases (err e) = inr (e, refl)

module _ (env : Env) (q : ExecuteRequest) (dispatch : Dispatch) (id : ℕ) (c : Caller) (db : Db)
    (n : ℕ) where
  -- The tables after the dispatch, with the approval row updated.
  abbrev pub with_outcome : String → Db
  with_outcome x = record (dispatch db).1 {
    approvals =
        update_rows (is_approval c id) (mark_executed env q.reprice_cost_usd x)
          (dispatch db).1.approvals;
  }

  with_response : String → Sql ℕ → Result ExecuteResponse × Tx
  with_response x s =
      (let (r, t) = finish (active c (with_outcome x) (n + 1)) s in
        elim r [ ok _ ↦ (ok (executed_response id q.reprice_cost_usd x), t) | err e ↦ (err e, t) ])

  from_update : String → Sql (Unit {0}) → Result ExecuteResponse × Tx
  from_update x s =
      (let (r, t) = finish (active c (dispatch db).1 (n + 1)) s in
        elim r [
          | ok _ ↦
              (write_card env.now (executed_card env q id) >>= λ _.
              pure (executed_response id q.reprice_cost_usd x))
                t
          | err e ↦ (err e, t)
        ])

  from_dispatch : Result String → Result ExecuteResponse × Tx
  from_dispatch r =
      let t : Tx = record (active c (dispatch db).1 (n + 1)) {
        aborted = if is_database r then true else false;
      } in
      elim r [
        | ok x ↦
            (run (update_approval env id q.reprice_cost_usd x)
                >> (write_card env.now (executed_card env q id) >>= λ _.
                    pure (executed_response id q.reprice_cost_usd x)))
              t
        | err e ↦ (err e, t)
      ]

  -- A dispatch that was called, whatever became of it.
  pub record WasCalled (t : Tx) : Type 0 where
    pub same_caller : t.caller ≡ c
    pub one_more : t.dispatches ≡ n + 1

  update-cases :
      (x : String)
      → (update_approval env id q.reprice_cost_usd x c (dispatch db).1 ≡ done tt (with_outcome x))
        ⊎ ((e : DbError) × (update_approval env id q.reprice_cost_usd x c (dispatch db).1 ≡ fail e))
  unfolding update_approval
  update-cases x = if_fail-cases _ numeric_out_of_range (inl refl)

  update_ok :
      (x : String)
      → fits_12_4 q.reprice_cost_usd ≡ true
      → update_approval env id q.reprice_cost_usd x c (dispatch db).1 ≡ done tt (with_outcome x)
  unfolding update_approval
  update_ok x fits = ground arith

  -- The steps from the dispatch on, where the dispatch returns and the card is written.
  pub carry_out_done :
      (x : String) {card : ℕ} {after : Db}
      → (dispatch db).0 ≡ ok x
      → fits_12_4 q.reprice_cost_usd ≡ true
      → write_card_sql env.now (executed_card env q id) c (with_outcome x) ≡ done card after
      → carry_out env q dispatch id (active c db n)
        ≡ (ok (executed_response id q.reprice_cost_usd x), active c after (n + 1))
  unfolding carry_out with_response from_update from_dispatch run write_card call_dispatch
  carry_out_done x returned fits written =
      ap from_dispatch returned
      ∙ ap (from_update x) (update_ok x fits)
      ∙ ap (with_response x) written

  -- The dispatch is called exactly once. Either every later step succeeds, and the approval row holds
  -- the outcome and the card names the caller, or the request ends in an error.
  pub carry_out-cases :
      ((x : String) × (t : ℕ) × (role : ActorRole) × ((dispatch db).0 ≡ ok x)
        × (c.tenant ≡ some t)
        × (actor_role c.role ≡ some role)
        × (carry_out env q dispatch id (active c db n) ≡ (
          ok (executed_response id q.reprice_cost_usd x),
          active c
              (with_card
                (card_row env.now (executed_card env q id) t role c (with_outcome x))
                (with_outcome x))
              (n + 1),
        )))
      ⊎ ((e : Failure) × (t : Tx) × (carry_out env q dispatch id (active c db n) ≡ (err e, t))
          × WasCalled t)
  unfolding carry_out with_response from_update from_dispatch run write_card call_dispatch
  carry_out-cases = elim (Result-cases (dispatch db).0) [
    | inr (e, raised) ↦
        inr (e, _, ap from_dispatch raised, record { same_caller = refl; one_more = refl })
    | inl (x, returned) ↦ elim (update-cases x) [
      | inr (e, failed) ↦ inr (
        database e,
        _,
        ap from_dispatch returned ∙ ap (from_update x) failed,
        record { same_caller = refl; one_more = refl },
      )
      | inl updated ↦
          elim (write_card_sql-cases env.now (executed_card env q id) c (with_outcome x)) [
            | inr (e, failed) ↦ inr (
              database e,
              _,
              ap from_dispatch returned ∙ ap (from_update x) updated ∙ ap (with_response x) failed,
              record { same_caller = refl; one_more = refl },
            )
            | inl (t, role, bound, known, written) ↦ inl (
              x,
              t,
              role,
              returned,
              bound,
              known,
              ap from_dispatch returned ∙ ap (from_update x) updated ∙ ap (with_response x) written,
            )
          ]
    ]
  ]
