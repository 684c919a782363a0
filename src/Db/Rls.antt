-- ===== src/Db/Rls.antt =====
-- Row-level security: the functions, the trigger and the tenant policies of
-- `migrations/versions/0002_roles_and_functions.py`, as the role `app_api` meets them.
use as_baptist_api.Prelude.{
  ℕ, ◌≡◌, ◌≢◌, Bool, true, false, ◌&&◌, ◌||◌, not, String, Option, none, some, ◌==◌, str_eq,
  any_row, if◌then◌else◌,
}
use as_baptist_api.Db.Rows.{Db, Membership, MembershipLocation}
use as_baptist_api.Db.Statements.{Caller, DbError, insufficient_privilege}

-- Reading and printing a UUID is Python's and PostgreSQL's: what is printed is not empty and reads
-- back as the same UUID.
pub record UuidText : Type 0 where
  pub to_text : ℕ → String
  pub of_text : String → Option ℕ
  pub of_text-to_text : (u : ℕ) → of_text (to_text u) ≡ some u
  pub to_text-ne-empty : (u : ℕ) → to_text u ≢ ""

-- `RequestContext` of `app/db/rls.py`.
pub record RequestContext : Type 0 where
  pub tenant_id : ℕ
  pub actor_id : ℕ
  pub role : String

-- The settings `app.*` of a session; `current_setting(name, true)` is null where one is not set.
pub record AppSettings : Type 0 where
  pub tenant_id : Option String
  pub actor_id : Option String
  pub role : Option String
  pub request_id : Option String

-- `nullif(t, '')`.
abbrev pub nullif_empty : Option String → Option String
nullif_empty none = none
nullif_empty (some t) = if str_eq t "" then none else some t

-- `t::uuid`: null stays null, and `none` is a text that is no UUID, an error.
abbrev pub cast_uuid : UuidText → Option String → Option (Option ℕ)
cast_uuid u none = some none
cast_uuid u (some t) = elim (u.of_text t) [ none ↦ none | some n ↦ some (some n) ]

unfoldable pub current_tenant_id : UuidText → AppSettings → Option (Option ℕ)
current_tenant_id u s = cast_uuid u (nullif_empty s.tenant_id)

unfoldable pub current_actor_id : UuidText → AppSettings → Option (Option ℕ)
current_actor_id u s = cast_uuid u (nullif_empty s.actor_id)

abbrev coalesce : Option String → String → String
coalesce none d = d
coalesce (some t) d = t

unfoldable pub current_role : AppSettings → String
current_role s = coalesce (nullif_empty s.role) "none"

-- The set of operator roles: `app.is_operator()`, and `OPERATOR_ROLES` of `app/deps.py`.
unfoldable pub is_operator : String → Bool
is_operator r = str_eq r "as_admin" || (str_eq r "as_staff" || str_eq r "system")

-- `tenant_id = app.current_tenant_id()`, the tenant policy: no tenant bound, no row.
abbrev pub owned : Caller → ℕ → Bool
owned c t = elim c.tenant [ none ↦ false | some u ↦ t == u ]

abbrev pub is_actor : Caller → ℕ → Bool
is_actor c u = elim c.actor [ none ↦ false | some a ↦ u == a ]

-- The join of `membership` and `membership_location` in `app.can_read_location`, with a further
-- condition on the location.
abbrev active_member : Caller → MembershipLocation → Membership → Bool
active_member c ml m =
    m.id == ml.membership_id
    && (owned c m.tenant_id && (is_actor c m.user_id && str_eq m.status "active"))

unfoldable pub scope_exists : (ℕ → Bool) → Caller → Db → Bool
scope_exists p c db =
    any_row (λ ml. p ml.location_id && any_row (active_member c ml) db.memberships)
      db.membership_locations

unfoldable pub can_read_location : Caller → Db → ℕ → Bool
unfolding is_operator scope_exists
can_read_location c db loc =
    if is_operator c.role
    then true
    else if not (scope_exists (λ _. true) c db)
    then true
    else scope_exists (λ l. l == loc) c db

-- The outcome of a trigger or a policy for the tenant of a new row.
pub data Admission : Type 0 where
  admitted : ℕ → Admission
  refused : DbError → Admission

-- `app.tg_enforce_tenant()` on INSERT, for a role other than `app_migrator`: a null tenant is filled
-- in, and another tenant's is refused.
unfoldable pub enforce_tenant_insert : Caller → Option ℕ → Admission
enforce_tenant_insert c new = elim c.tenant [
  | none ↦ refused insufficient_privilege
  | some u ↦ elim new [
    | none ↦ admitted u
    | some t ↦ if t == u then admitted t else refused insufficient_privilege
  ]
]

-- `app.tg_enforce_tenant()` on UPDATE: the tenant of a row is immutable.
unfoldable pub enforce_tenant_update : Caller → ℕ → ℕ → Admission
enforce_tenant_update c old new = elim c.tenant [
  | none ↦ refused insufficient_privilege
  | some u ↦ if new == old then admitted new else refused insufficient_privilege
]
