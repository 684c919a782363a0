-- ===== src/Ladder/Approve.antt =====
-- What the insertion of an approval leaves behind.
use as_baptist_api.Prelude.{
  ℕ, ◌≡◌, refl, sym, ap, ◌∙◌, ◌⊎◌, inl, inr, true, false, some, ◌∷◌, arith, any_row, ◌==◌, ==_iff,
  Bool-cases, Option-cases,
}
use as_baptist_api.Problem.{duplicate_idempotency_key, from_code}
use as_baptist_api.Db.{
  database, err, recode_integrity, ok, finish, active, run, Tx, Result, problem, Failure, Caller,
  Db, Tenant, Location, UserProfile, CostPreview, Approval, DbError, foreign_key_violation,
  unique_violation, insufficient_privilege, enforce_tenant_insert, Sql, done, fail,
}
use as_baptist_api.Audit.{refers}
use as_baptist_api.Ladder.{
  approval_row, approve, ExecuteRequest, insert_approval, Env, clashes, insert_approval_row,
  checked_insert,
}

-- Every reference of a new approval has its row.
pub record HasReferences (row : Approval) (db : Db) : Type 0 where
  pub tenant : any_row (λ (t : Tenant). t.id == row.tenant_id) db.tenants ≡ true
  pub location : refers (λ (l : Location). l.id) row.location_id db.locations ≡ true
  pub preview : refers (λ (p : CostPreview). p.id) row.cost_preview_id db.previews ≡ true
  pub approver : any_row (λ (u : UserProfile). u.id == row.approved_by) db.users ≡ true

-- The tables after the insertion.
abbrev pub with_approval : Approval → Db → Db
with_approval row db = record db { approvals = row ∷ db.approvals }

insert_approval_row-cases :
    (row : Approval) (db : Db)
    → ((insert_approval_row row db ≡ done row.id (with_approval row db))
        × (any_row (clashes row) db.approvals ≡ false)
        × HasReferences row db)
      ⊎ ((e : DbError) × (insert_approval_row row db ≡ fail e)
          × ((e ≡ unique_violation) ⊎ (e ≡ foreign_key_violation)))
unfolding insert_approval_row
insert_approval_row-cases row db = elim (Bool-cases (any_row (clashes row) db.approvals)) [
  | inl taken ↦ inr (unique_violation, rw taken, inl refl)
  | inr free ↦ elim (Bool-cases (any_row (λ (t : Tenant). t.id == row.tenant_id) db.tenants)) [
    | inr no_tenant ↦ inr (foreign_key_violation, rw free (rw no_tenant), inr refl)
    | inl tenant ↦
        elim (Bool-cases (refers (λ (l : Location). l.id) row.location_id db.locations)) [
          | inr no_location ↦
              inr (foreign_key_violation, rw free (rw tenant (rw no_location)), inr refl)
          | inl location ↦
              elim (Bool-cases
                (refers (λ (p : CostPreview). p.id) row.cost_preview_id db.previews)) [
                  | inr no_preview ↦ inr (
                    foreign_key_violation,
                    rw free (rw tenant (rw location (rw no_preview))),
                    inr refl,
                  )
                  | inl preview ↦
                      elim (Bool-cases
                        (any_row (λ (u : UserProfile). u.id == row.approved_by) db.users)) [
                          | inr no_user ↦ inr (
                            foreign_key_violation,
                            rw free (rw tenant (rw location (rw preview (rw no_user)))),
                            inr refl,
                          )
                          | inl approver ↦ inl (
                            rw free (rw tenant (rw location (rw preview (rw approver)))),
                            free,
                            record {
                              tenant = tenant;
                              location = location;
                              preview = preview;
                              approver = approver;
                            },
                          )
                        ]
                ]
        ]
  ]
]

-- An approval that was written: under the caller's tenant, with no other approval in its way.
pub record IsAdmitted (c : Caller) (row : Approval) (db : Db) : Type 0 where
  pub own_tenant : c.tenant ≡ some row.tenant_id
  pub unclashed : any_row (clashes row) db.approvals ≡ false
  pub references : HasReferences row db

-- The trigger and the policy let a row of the caller's own tenant through, and no other.
checked_insert-cases :
    {A : Type 0} (c : Caller) (t : ℕ) (insert : ℕ → Sql A)
    → ((c.tenant ≡ some t)
        × (checked_insert c (enforce_tenant_insert c (some t)) insert ≡ insert t))
      ⊎ (checked_insert c (enforce_tenant_insert c (some t)) insert ≡ fail insufficient_privilege)
unfolding enforce_tenant_insert
checked_insert-cases c t insert = elim (Option-cases c.tenant) [
  | inl unbound ↦ inr (rw (unbound, enforce_tenant_insert))
  | inr (u, bound) ↦ elim (Bool-cases (t == u)) [
    | inl same ↦ inl (bound ∙ ap some (sym ((==_iff t u).0 same)), ground arith)
    | inr other ↦ inr (ground arith)
  ]
]

-- How a failed insertion is reported: as a duplicate key where the error is one of integrity.
abbrev pub IsReported : DbError → Failure → Type 0
IsReported e f =
    (((e ≡ unique_violation) ⊎ (e ≡ foreign_key_violation))
      × (f ≡ problem (from_code duplicate_idempotency_key)))
    ⊎ ((e ≡ insufficient_privilege) × (f ≡ database insufficient_privilege))

module _ (c : Caller) (db : Db) where
  insert_approval-cases :
      (row : Approval)
      → ((insert_approval row c db ≡ done row.id (with_approval row db)) × IsAdmitted c row db)
        ⊎ ((e : DbError) × (insert_approval row c db ≡ fail e)
            × (((e ≡ unique_violation) ⊎ (e ≡ foreign_key_violation))
                ⊎ (e ≡ insufficient_privilege)))
  unfolding insert_approval
  insert_approval-cases row =
      elim (checked_insert-cases c row.tenant_id
        (λ t. insert_approval_row (record row { tenant_id = t }) db)) [
          | inr denied ↦ inr (insufficient_privilege, denied, inr refl)
          | inl (bound, through) ↦ elim (insert_approval_row-cases row db) [
            | inl (inserted, free, refs) ↦ inl (
              through ∙ inserted,
              record { own_tenant = bound; unclashed = free; references = refs },
            )
            | inr (e, failed, kind) ↦ inr (e, through ∙ failed, inl kind)
          ]
        ]

  module _ (env : Env) (q : ExecuteRequest) (n : ℕ) where
    approve_finish : Sql ℕ → Result ℕ × Tx
    approve_finish s =
        let (r, t) = finish (active c db n) s in
        (recode_integrity (from_code duplicate_idempotency_key) r, t)

    -- The approval is written, or the insertion is refused: as a duplicate key for every violation of
    -- a constraint, foreign keys included.
    pub approve-cases :
        ((approve env q (active c db n)
            ≡ (ok env.new_id, active c (with_approval (approval_row env q) db) n))
          × IsAdmitted c (approval_row env q) db)
        ⊎ ((e : DbError) × (f : Failure) × (insert_approval (approval_row env q) c db ≡ fail e)
            × (approve env q (active c db n) ≡ (err f, record (active c db n) { aborted = true }))
            × IsReported e f)
    unfolding approve run approve_finish
    approve-cases = elim (insert_approval-cases (approval_row env q)) [
      | inl (inserted, admitted) ↦ inl (ap approve_finish inserted, admitted)
      | inr (e, failed, inl (inl unique)) ↦ inr (
        e,
        problem (from_code duplicate_idempotency_key),
        failed,
        ap approve_finish (failed ∙ ap fail unique),
        inl (inl unique, refl),
      )
      | inr (e, failed, inl (inr foreign)) ↦ inr (
        e,
        problem (from_code duplicate_idempotency_key),
        failed,
        ap approve_finish (failed ∙ ap fail foreign),
        inl (inr foreign, refl),
      )
      | inr (e, failed, inr denied) ↦ inr (
        e,
        database insufficient_privilege,
        failed,
        ap approve_finish (failed ∙ ap fail denied),
        inr (denied, refl),
      )
    ]
