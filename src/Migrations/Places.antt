-- ===== src/Migrations/Places.antt =====
-- `migrations/versions/0003_location.py`: locations and their aliases.
use as_baptist_api.Prelude.{true, false, none, some, List, [], ◌∷◌, ◌++◌}
use as_baptist_api.Migrations.Objects.{
  Table, app_api, app_readonly, app_worker, boolean, char, column, delete, enum, foreign_key, index,
  insert, integer, jsonb, numeric_scale, own_tenant, policy, readable_location, select, text,
  text_array, timestamptz, trigger, update, uuid,
}
use as_baptist_api.Migrations.Ddl.{
  Ddl, create_foreign_key, create_index, create_policy, create_table, create_trigger,
  drop_constraint, drop_index, drop_policy, drop_table, drop_trigger, enable_security,
  force_security,
}

abbrev pub location_table : Table
location_table = record {
  name = "location";
  columns =
      column "id" uuid (some "gen_random_uuid()") false
      ∷ column "tenant_id" uuid none false
      ∷ column "slug" text none false
      ∷ column "name" text none false
      ∷ column "display_name" text none true
      ∷ column "fleet" (enum "fleet_kind") none true
      ∷ column "listing_type" (enum "listing_type") none false
      ∷ column "facility_type" text none false
      ∷ column "address" text none false
      ∷ column "city" text none false
      ∷ column "state" (char 2) none false
      ∷ column "zip" text none false
      ∷ column "lat" (numeric_scale 10 7) none true
      ∷ column "lng" (numeric_scale 10 7) none true
      ∷ column "place_id" text none true
      ∷ column "cid" text none true
      ∷ column "phone" text none true
      ∷ column "website" text none true
      ∷ column "domain" text none true
      ∷ column "primary_category" text none true
      ∷ column "additional_categories" text_array (some "'{}'") false
      ∷ column "is_claimed" boolean none true
      ∷ column "is_verified" boolean none true
      ∷ column "total_photos" integer none true
      ∷ column "rating_value" (numeric_scale 2 1) none true
      ∷ column "rating_votes" integer none true
      ∷ column "rating_distribution" jsonb none true
      ∷ column "work_time" jsonb none true
      ∷ column "attributes" jsonb none true
      ∷ column "place_topics" jsonb none true
      ∷ column "searchatlas_business_id" integer none true
      ∷ column "searchatlas_audit_report_id" integer none true
      ∷ column "status" text (some "active") false
      ∷ column "enriched" boolean (some "false") false
      ∷ column "source" (enum "data_source") none false
      ∷ column "fetched_at" timestamptz none true
      ∷ column "created_at" timestamptz (some "now()") false
      ∷ column "updated_at" timestamptz (some "now()") false
      ∷ [];
  checks =
      ("location_status_check", "status in ('active','onboarding','paused','archived')")
      ∷ ("location_coords_paired", "(lat is null) = (lng is null)")
      ∷ [];
  foreign_keys = foreign_key ("tenant_id" ∷ []) ("tenant.id" ∷ []) false ∷ [];
  primary_key = "id" ∷ [];
  uniques = ("tenant_id" ∷ "slug" ∷ []) ∷ [];
}

abbrev pub location_alias_table : Table
location_alias_table = record {
  name = "location_alias";
  columns =
      column "id" uuid (some "gen_random_uuid()") false
      ∷ column "tenant_id" uuid none false
      ∷ column "location_id" uuid none false
      ∷ column "kind" text none false
      ∷ column "value" text none false
      ∷ column "note" text none true
      ∷ column "created_by" uuid none true
      ∷ column "created_at" timestamptz (some "now()") false
      ∷ [];
  checks = ("location_alias_kind_check", "kind in ('name','domain')") ∷ [];
  foreign_keys =
      foreign_key ("tenant_id" ∷ []) ("tenant.id" ∷ []) false
      ∷ foreign_key ("location_id" ∷ []) ("location.id" ∷ []) true
      ∷ foreign_key ("created_by" ∷ []) ("user_profile.id" ∷ []) false
      ∷ [];
  primary_key = "id" ∷ [];
  uniques = ("location_id" ∷ "kind" ∷ "value" ∷ []) ∷ [];
}

abbrev pub places_tables : List Ddl
places_tables =
    create_table location_table
    ∷ create_index "location" (
        index "ix_location__tenant_fleet" ("tenant_id" ∷ "fleet" ∷ []) false
          (some "status = 'active'"))
    ∷ create_index "location"
        (index "ix_location__cid" ("tenant_id" ∷ "cid" ∷ []) false (some "cid is not null"))
    ∷ create_table location_alias_table
    ∷ create_foreign_key "fk_membership_location__location" "membership_location"
        (foreign_key ("location_id" ∷ []) ("location.id" ∷ []) true)
    ∷ []

abbrev pub places_security : List Ddl
places_security =
    enable_security "location"
    ∷ force_security "location"
    ∷ enable_security "location_alias"
    ∷ force_security "location_alias"
    ∷ []

abbrev pub places_policies : List Ddl
places_policies =
    create_policy "location"
      (policy "location_select_scoped" select (app_api ∷ []) (some readable_location) none)
    ∷ create_policy "location" (
        policy "location_select_tenant" select (app_worker ∷ app_readonly ∷ []) (some own_tenant)
          none)
    ∷ create_policy "location"
        (policy "location_insert_tenant" insert (app_api ∷ []) none (some own_tenant))
    ∷ create_policy "location"
        (policy "location_update_tenant" update (app_api ∷ []) (some own_tenant) (some own_tenant))
    ∷ create_policy "location"
        (policy "location_delete_tenant" delete (app_api ∷ []) (some own_tenant) none)
    ∷ create_policy "location_alias" (
        policy "location_alias_select_tenant" select (app_api ∷ app_worker ∷ app_readonly ∷ [])
          (some own_tenant) none)
    ∷ create_policy "location_alias" (
        policy "location_alias_insert_tenant" insert (app_api ∷ app_worker ∷ []) none
          (some own_tenant))
    ∷ create_policy "location_alias" (
        policy "location_alias_update_tenant" update (app_api ∷ app_worker ∷ []) (some own_tenant)
          (some own_tenant))
    ∷ create_policy "location_alias"
        (policy "location_alias_delete_tenant" delete (app_api ∷ []) (some own_tenant) none)
    ∷ []

abbrev pub places_triggers : List Ddl
places_triggers =
    create_trigger "location"
      (trigger "trg_location_enforce_tenant" "before insert or update" "app.tg_enforce_tenant")
    ∷ create_trigger "location"
        (trigger "trg_location_updated_at" "before update" "app.tg_set_updated_at")
    ∷ create_trigger "location_alias" (
        trigger "trg_location_alias_enforce_tenant" "before insert or update"
          "app.tg_enforce_tenant")
    ∷ []

abbrev pub places_upgrade : List Ddl
places_upgrade = places_tables ++ places_security ++ places_policies ++ places_triggers

abbrev pub places_downgrade : List Ddl
places_downgrade =
    drop_trigger "trg_location_enforce_tenant" "location"
    ∷ drop_trigger "trg_location_updated_at" "location"
    ∷ drop_trigger "trg_location_alias_enforce_tenant" "location_alias"
    ∷ drop_policy "location_select_scoped" "location"
    ∷ drop_policy "location_select_tenant" "location"
    ∷ drop_policy "location_insert_tenant" "location"
    ∷ drop_policy "location_update_tenant" "location"
    ∷ drop_policy "location_delete_tenant" "location"
    ∷ drop_policy "location_alias_select_tenant" "location_alias"
    ∷ drop_policy "location_alias_insert_tenant" "location_alias"
    ∷ drop_policy "location_alias_update_tenant" "location_alias"
    ∷ drop_policy "location_alias_delete_tenant" "location_alias"
    ∷ drop_constraint "fk_membership_location__location" "membership_location"
    ∷ drop_table "location_alias"
    ∷ drop_index "ix_location__cid" "location"
    ∷ drop_index "ix_location__tenant_fleet" "location"
    ∷ drop_table "location"
    ∷ []
