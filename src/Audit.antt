-- ===== src/Audit.antt =====
-- The audit trail: `audit.write_card` of `migrations/versions/0004_audit_and_cost.py`, which
-- `app/services/audit.py` calls.
use as_baptist_api.Prelude.{
  ℕ, ◌+◌, Bool, true, not, ◌||◌, String, Option, none, some, List, ◌∷◌, ◌==◌, str_eq, any_row,
  find_row, if◌then◌else◌,
}
use as_baptist_api.Db.{
  Caller, Db, UserProfile, Tenant, Location, Approval, AuditCard, ActorRole, actor_role, computed,
  is_actor, Sql, done, fail, insufficient_privilege, invalid_text, check_violation,
  foreign_key_violation, Statement, Exec, run,
}

-- The keyword arguments of `write_card`.
pub record CardInput : Type 0 where
  pub location_id : Option ℕ
  pub verb : String
  pub action : String
  pub resource_type : String
  pub resource_id : Option String
  pub approval_id : Option ℕ
  pub detail : Option String
  pub simulated : Bool

-- `audit_card_verb_check`.
abbrev pub is_verb : String → Bool
is_verb v =
    str_eq v "create"
    || (str_eq v "update"
        || (str_eq v "delete"
            || (str_eq v "approve"
                || (str_eq v "reject" || (str_eq v "read" || str_eq v "execute")))))

-- A nullable reference is satisfied by null, or by a row with that id.
abbrev pub refers : {A : Type 0} → (A → ℕ) → Option ℕ → List A → Bool
refers id none rows = true
refers id (some k) rows = any_row (λ row. id row == k) rows

abbrev label_of : Option UserProfile → String
label_of none = "system"
label_of (some u) = elim u.full_name [ none ↦ u.email | some name ↦ name ]

-- `coalesce(v_label, 'system')`, the actor's full name or e-mail address.
unfoldable pub actor_label : Caller → Db → String
actor_label c db = label_of (find_row (λ (u : UserProfile). is_actor c u.id) db.users)

-- The row that `audit.write_card` inserts for the tenant `t`.
abbrev pub card_row : ℕ → CardInput → ℕ → ActorRole → Caller → Db → AuditCard
card_row now p t role c db = record {
  id = db.next_card;
  tenant_id = t;
  location_id = p.location_id;
  occurred_at = now;
  actor_id = c.actor;
  actor_label = actor_label c db;
  actor_role = role;
  verb = p.verb;
  action = p.action;
  resource_type = p.resource_type;
  resource_id = p.resource_id;
  approval_id = p.approval_id;
  request_id = c.request_id;
  detail = p.detail;
  simulated = p.simulated;
  source = computed;
}

-- The constraints of `audit_card`, its foreign keys among them; `fk_audit_card__approval` is of
-- `migrations/versions/0005_approval_ladder.py`.
unfoldable pub insert_card : AuditCard → Db → Sql ℕ
insert_card row db =
    if not (is_verb row.verb)
    then fail check_violation
    else if not (any_row (λ (t : Tenant). t.id == row.tenant_id) db.tenants)
    then fail foreign_key_violation
    else if not (refers (λ (l : Location). l.id) row.location_id db.locations)
    then fail foreign_key_violation
    else if not (refers (λ (u : UserProfile). u.id) row.actor_id db.users)
    then fail foreign_key_violation
    else if not (refers (λ (a : Approval). a.id) row.approval_id db.approvals)
    then fail foreign_key_violation
    else done row.id (record db { cards = row ∷ db.cards; next_card = db.next_card + 1 })

-- `app.current_role()::actor_role` in the inserted row.
unfoldable pub card_with_role : ℕ → CardInput → ℕ → Caller → Db → Option ActorRole → Sql ℕ
unfolding insert_card actor_label
card_with_role now p t c db none = fail invalid_text
card_with_role now p t c db (some role) = insert_card (card_row now p t role c db) db

unfoldable pub card_for_tenant : ℕ → CardInput → Caller → Db → Option ℕ → Sql ℕ
unfolding card_with_role actor_role
card_for_tenant now p c db none = fail insufficient_privilege
card_for_tenant now p c db (some t) = card_with_role now p t c db (actor_role c.role)

-- `audit.write_card`: a security definer function, which row-level security does not restrict.
unfoldable pub write_card_sql : ℕ → CardInput → Statement ℕ
unfolding card_for_tenant
write_card_sql now p c db = card_for_tenant now p c db c.tenant

-- `write_card` of `app/services/audit.py`.
unfoldable pub write_card : ℕ → CardInput → Exec ℕ
unfolding write_card_sql run
write_card now p = run (write_card_sql now p)
