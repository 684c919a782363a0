-- ===== src/Migrations/Agreement.antt =====
-- The conditions that the statements of `Db`, `Ladder`, `Locations` and `Identity` apply are the
-- policies that the migrations install for the API.
use mathlib.Core.Path.{refl}
use as_baptist_api.Prelude.{ℕ, ◌≡◌, Bool, true, false, ◌&&◌, ◌||◌, String, List}
use as_baptist_api.Migrations.Isolated.{or_false}
use as_baptist_api.Db.{Caller, Db, Location, owned, is_actor}
use as_baptist_api.Locations.{can_see}
use as_baptist_api.Migrations.{
  Role, app_api, Command, select, insert, update, delete, Schema, same_command, apply, deployed,
  bare, RowFacts, holds, may,
}

abbrev pub facts : ℕ → ℕ → RowFacts
facts id tenant = record { id = id; tenant = tenant }

-- A table in which the API may do everything to the rows of its tenant, and nothing to others.
abbrev pub IsTenantTable : Schema → String → Type 0
IsTenantTable s name =
    (cmd : Command) (c : Caller) (db : Db) (row : RowFacts)
    → may s name app_api cmd c db row ≡ owned c row.tenant

-- What the API may do in a schema is what its statements are held to.
abbrev pub IsAsModelled : Schema → Type 0
IsAsModelled s =
    IsTenantTable s "approval"
    × IsTenantTable s "cost_preview"
    × IsTenantTable s "cost_budget"
    × IsTenantTable s "cost_ledger"
    × IsTenantTable s "membership"
    × ((c : Caller) (db : Db) (l : Location)
        → may s "location" app_api select c db (facts l.id l.tenant_id) ≡ can_see c db l)
    × ((c : Caller) (db : Db) (row : RowFacts)
        → (may s "location" app_api insert c db row ≡ owned c row.tenant)
          × (may s "location" app_api update c db row ≡ owned c row.tenant))
    × ((cmd : Command) (c : Caller) (db : Db) (row : RowFacts)
        → may s "tenant" app_api cmd c db row ≡ (same_command select cmd && owned c row.tenant))
    × ((cmd : Command) (c : Caller) (db : Db) (row : RowFacts)
        → may s "user_profile" app_api cmd c db row
          ≡ (same_command select cmd && is_actor c row.id))

both : (b : Bool) → ((b && b) || false) ≡ b
both true = refl
both false = refl

module _ (extensions : List String) (roles public_users : List Role)
    (defaults : List (Role × Command)) where
  abbrev pub schema : Schema
  schema = deployed (bare extensions roles public_users defaults)

  approval_tenant : IsTenantTable schema "approval"
  unfolding apply holds
  approval_tenant select c db row = or_false (owned c row.tenant)
  approval_tenant insert c db row = or_false (owned c row.tenant)
  approval_tenant update c db row = both (owned c row.tenant)
  approval_tenant delete c db row = or_false (owned c row.tenant)

  cost_preview_tenant : IsTenantTable schema "cost_preview"
  unfolding apply holds
  cost_preview_tenant select c db row = or_false (owned c row.tenant)
  cost_preview_tenant insert c db row = or_false (owned c row.tenant)
  cost_preview_tenant update c db row = both (owned c row.tenant)
  cost_preview_tenant delete c db row = or_false (owned c row.tenant)

  cost_budget_tenant : IsTenantTable schema "cost_budget"
  unfolding apply holds
  cost_budget_tenant select c db row = or_false (owned c row.tenant)
  cost_budget_tenant insert c db row = or_false (owned c row.tenant)
  cost_budget_tenant update c db row = both (owned c row.tenant)
  cost_budget_tenant delete c db row = or_false (owned c row.tenant)

  cost_ledger_tenant : IsTenantTable schema "cost_ledger"
  unfolding apply holds
  cost_ledger_tenant select c db row = or_false (owned c row.tenant)
  cost_ledger_tenant insert c db row = or_false (owned c row.tenant)
  cost_ledger_tenant update c db row = both (owned c row.tenant)
  cost_ledger_tenant delete c db row = or_false (owned c row.tenant)

  membership_tenant : IsTenantTable schema "membership"
  unfolding apply holds
  membership_tenant select c db row = or_false (owned c row.tenant)
  membership_tenant insert c db row = or_false (owned c row.tenant)
  membership_tenant update c db row = both (owned c row.tenant)
  membership_tenant delete c db row = or_false (owned c row.tenant)

  location_read :
      (c : Caller) (db : Db) (l : Location)
      → may schema "location" app_api select c db (facts l.id l.tenant_id) ≡ can_see c db l
  unfolding apply holds can_see
  location_read c db l = or_false (can_see c db l)

  location_written :
      (c : Caller) (db : Db) (row : RowFacts)
      → (may schema "location" app_api insert c db row ≡ owned c row.tenant)
        × (may schema "location" app_api update c db row ≡ owned c row.tenant)
  unfolding apply holds
  location_written c db row = (or_false (owned c row.tenant), both (owned c row.tenant))

  tenant_read :
      (cmd : Command) (c : Caller) (db : Db) (row : RowFacts)
      → may schema "tenant" app_api cmd c db row ≡ (same_command select cmd && owned c row.tenant)
  unfolding apply holds
  tenant_read select c db row = or_false (owned c row.tenant)
  tenant_read insert c db row = refl
  tenant_read update c db row = refl
  tenant_read delete c db row = refl

  profile_read :
      (cmd : Command) (c : Caller) (db : Db) (row : RowFacts)
      → may schema "user_profile" app_api cmd c db row
        ≡ (same_command select cmd && is_actor c row.id)
  unfolding apply holds
  profile_read select c db row = or_false (is_actor c row.id)
  profile_read insert c db row = refl
  profile_read update c db row = refl
  profile_read delete c db row = refl

  -- In the schema that the migrations leave on a database without tables, what the API may do is what
  -- its statements are held to in this library. Approvals, previews, budgets, ledger and memberships
  -- are its tenant's to read and write. A location is read where `can_see` holds, and written in its
  -- own tenant. Of the tenants only its own may be read, and of the profiles only the caller's;
  -- neither may be written, though the API has every privilege on both tables.
  pub policies_agree : IsAsModelled schema
  policies_agree = (
    approval_tenant, cost_preview_tenant, cost_budget_tenant, cost_ledger_tenant, membership_tenant,
    location_read, location_written, tenant_read, profile_read,
  )
