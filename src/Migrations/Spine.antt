-- ===== src/Migrations/Spine.antt =====
-- `migrations/versions/0001_tenant_spine.py`: the tenants, their users and their credentials.
use as_baptist_api.Prelude.{true, false, none, some, List, [], ◌∷◌}
use as_baptist_api.Migrations.Objects.{
  Table, citext, column, enum, foreign_key, index, text, timestamptz, uuid,
}
use as_baptist_api.Migrations.Ddl.{
  Ddl, create_extension, create_index, create_table, create_type, drop_index, drop_table, drop_type,
}

abbrev pub tenant_table : Table
tenant_table = record {
  name = "tenant";
  columns =
      column "id" uuid (some "gen_random_uuid()") false
      ∷ column "slug" text none false
      ∷ column "name" text none false
      ∷ column "tier" text (some "agency_client") false
      ∷ column "status" text (some "active") false
      ∷ column "created_at" timestamptz (some "now()") false
      ∷ column "updated_at" timestamptz (some "now()") false
      ∷ column "archived_at" timestamptz none true
      ∷ [];
  checks =
      ("tenant_tier_check", "tier in ('baptist','agency_client','retail_whitelabel')")
      ∷ ("tenant_status_check", "status in ('active','suspended','archived')")
      ∷ [];
  foreign_keys = [];
  primary_key = "id" ∷ [];
  uniques = ("slug" ∷ []) ∷ [];
}

abbrev pub user_profile_table : Table
user_profile_table = record {
  name = "user_profile";
  columns =
      column "id" uuid none false
      ∷ column "email" citext none false
      ∷ column "full_name" text none true
      ∷ column "avatar_url" text none true
      ∷ column "created_at" timestamptz (some "now()") false
      ∷ column "updated_at" timestamptz (some "now()") false
      ∷ column "last_active_at" timestamptz none true
      ∷ [];
  checks = [];
  foreign_keys = [];
  primary_key = "id" ∷ [];
  uniques = ("email" ∷ []) ∷ [];
}

abbrev pub membership_table : Table
membership_table = record {
  name = "membership";
  columns =
      column "id" uuid (some "gen_random_uuid()") false
      ∷ column "tenant_id" uuid none false
      ∷ column "user_id" uuid none false
      ∷ column "role" (enum "actor_role") none false
      ∷ column "status" text (some "active") false
      ∷ column "invited_by" uuid none true
      ∷ column "invite_token" text none true
      ∷ column "invite_expires_at" timestamptz none true
      ∷ column "joined_at" timestamptz none true
      ∷ column "created_at" timestamptz (some "now()") false
      ∷ column "updated_at" timestamptz (some "now()") false
      ∷ [];
  checks = ("membership_status_check", "status in ('active','pending','revoked')") ∷ [];
  foreign_keys =
      foreign_key ("tenant_id" ∷ []) ("tenant.id" ∷ []) false
      ∷ foreign_key ("user_id" ∷ []) ("user_profile.id" ∷ []) false
      ∷ foreign_key ("invited_by" ∷ []) ("user_profile.id" ∷ []) false
      ∷ [];
  primary_key = "id" ∷ [];
  uniques = ("invite_token" ∷ []) ∷ ("tenant_id" ∷ "user_id" ∷ []) ∷ [];
}

abbrev pub membership_location_table : Table
membership_location_table = record {
  name = "membership_location";
  columns = column "membership_id" uuid none false ∷ column "location_id" uuid none false ∷ [];
  checks = [];
  foreign_keys = foreign_key ("membership_id" ∷ []) ("membership.id" ∷ []) true ∷ [];
  primary_key = "membership_id" ∷ "location_id" ∷ [];
  uniques = [];
}

abbrev pub tenant_credential_table : Table
tenant_credential_table = record {
  name = "tenant_credential";
  columns =
      column "id" uuid (some "gen_random_uuid()") false
      ∷ column "tenant_id" uuid none false
      ∷ column "provider" text none false
      ∷ column "kind" text none false
      ∷ column "secret_ref" text none false
      ∷ column "oauth_expires_at" timestamptz none true
      ∷ column "status" text (some "active") false
      ∷ column "created_at" timestamptz (some "now()") false
      ∷ column "updated_at" timestamptz (some "now()") false
      ∷ [];
  checks =
      ("tenant_credential_kind_check", "kind in ('api_key','basic','oauth')")
      ∷ ("tenant_credential_status_check", "status in ('active','expired','revoked')")
      ∷ [];
  foreign_keys = foreign_key ("tenant_id" ∷ []) ("tenant.id" ∷ []) false ∷ [];
  primary_key = "id" ∷ [];
  uniques = ("tenant_id" ∷ "provider" ∷ []) ∷ [];
}

abbrev pub spine_tables : List Ddl
spine_tables =
    create_extension "pgcrypto"
    ∷ create_extension "citext"
    ∷ create_type "data_source" (
        "searchatlas" ∷ "dataforseo" ∷ "serper" ∷ "brightlocal" ∷ "synthetic" ∷ "computed"
        ∷ "client_verified" ∷ [])
    ∷ create_type "listing_type" ("facility" ∷ "department" ∷ "practitioner" ∷ [])
    ∷ create_type "fleet_kind" ("hospital" ∷ "clinic" ∷ [])
    ∷ create_type "layer_type" ("map_pack" ∷ "local_finder" ∷ "organic" ∷ "ai_mode" ∷ [])
    ∷ create_type "device_type" ("desktop" ∷ "mobile" ∷ [])
    ∷ create_type "actor_role"
        ("as_admin" ∷ "as_staff" ∷ "client_admin" ∷ "client_user" ∷ "system" ∷ [])
    ∷ create_type "lvi_band" ("elite" ∷ "healthy" ∷ "at-risk" ∷ "critical" ∷ [])
    ∷ create_table tenant_table
    ∷ create_table user_profile_table
    ∷ create_table membership_table
    ∷ create_index "membership"
        (index "ix_membership__user" ("user_id" ∷ []) false (some "status = 'active'"))
    ∷ create_table membership_location_table
    ∷ create_table tenant_credential_table
    ∷ []

abbrev pub spine_upgrade : List Ddl
spine_upgrade = spine_tables

abbrev pub spine_downgrade : List Ddl
spine_downgrade =
    drop_table "tenant_credential"
    ∷ drop_table "membership_location"
    ∷ drop_index "ix_membership__user" "membership"
    ∷ drop_table "membership"
    ∷ drop_table "user_profile"
    ∷ drop_table "tenant"
    ∷ drop_type "lvi_band"
    ∷ drop_type "actor_role"
    ∷ drop_type "device_type"
    ∷ drop_type "layer_type"
    ∷ drop_type "fleet_kind"
    ∷ drop_type "listing_type"
    ∷ drop_type "data_source"
    ∷ []
