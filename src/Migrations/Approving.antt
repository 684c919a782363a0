-- ===== src/Migrations/Approving.antt =====
-- `migrations/versions/0005_approval_ladder.py`: previews and approvals.
use as_baptist_api.Prelude.{true, false, none, some, List, [], ◌∷◌, ◌++◌}
use as_baptist_api.Migrations.Objects.{
  Table, app_api, app_readonly, app_worker, boolean, column, delete, foreign_key, insert, jsonb,
  numeric_scale, own_tenant, policy, select, text, timestamptz, trigger, update, uuid,
}
use as_baptist_api.Migrations.Ddl.{
  Ddl, all_commands, create_foreign_key, create_policy, create_table, create_trigger,
  drop_constraint, drop_policy, drop_table, drop_trigger, enable_security, force_security,
  revoke_on,
}

abbrev pub cost_preview_table : Table
cost_preview_table = record {
  name = "cost_preview";
  columns =
      column "id" uuid (some "gen_random_uuid()") false
      ∷ column "tenant_id" uuid none false
      ∷ column "location_id" uuid none true
      ∷ column "operation" text none false
      ∷ column "requested_by" uuid none false
      ∷ column "params" jsonb none false
      ∷ column "units" jsonb none false
      ∷ column "estimated_cost_usd" (numeric_scale 12 4) none false
      ∷ column "gates" jsonb none false
      ∷ column "passes" boolean none false
      ∷ column "created_at" timestamptz (some "now()") false
      ∷ column "expires_at" timestamptz (some "now() + interval '15 minutes'") false
      ∷ [];
  checks = [];
  foreign_keys =
      foreign_key ("tenant_id" ∷ []) ("tenant.id" ∷ []) false
      ∷ foreign_key ("location_id" ∷ []) ("location.id" ∷ []) false
      ∷ foreign_key ("requested_by" ∷ []) ("user_profile.id" ∷ []) false
      ∷ [];
  primary_key = "id" ∷ [];
  uniques = [];
}

abbrev pub approval_table : Table
approval_table = record {
  name = "approval";
  columns =
      column "id" uuid (some "gen_random_uuid()") false
      ∷ column "tenant_id" uuid none false
      ∷ column "location_id" uuid none true
      ∷ column "cost_preview_id" uuid none true
      ∷ column "operation" text none false
      ∷ column "approved_by" uuid none false
      ∷ column "approved_at" timestamptz (some "now()") false
      ∷ column "idempotency_key" text none false
      ∷ column "status" text (some "approved") false
      ∷ column "executed_at" timestamptz none true
      ∷ column "actual_cost_usd" (numeric_scale 12 4) none true
      ∷ column "result" jsonb none true
      ∷ column "error" jsonb none true
      ∷ [];
  checks =
      ("approval_status_check", "status in ('approved','executing','executed','failed','expired')")
      ∷ [];
  foreign_keys =
      foreign_key ("tenant_id" ∷ []) ("tenant.id" ∷ []) false
      ∷ foreign_key ("location_id" ∷ []) ("location.id" ∷ []) false
      ∷ foreign_key ("cost_preview_id" ∷ []) ("cost_preview.id" ∷ []) false
      ∷ foreign_key ("approved_by" ∷ []) ("user_profile.id" ∷ []) false
      ∷ [];
  primary_key = "id" ∷ [];
  uniques = ("tenant_id" ∷ "idempotency_key" ∷ []) ∷ [];
}

abbrev pub approving_tables : List Ddl
approving_tables =
    create_table cost_preview_table
    ∷ create_table approval_table
    ∷ create_foreign_key "fk_audit_card__approval" "audit_card"
        (foreign_key ("approval_id" ∷ []) ("approval.id" ∷ []) false)
    ∷ []

abbrev pub approving_security : List Ddl
approving_security =
    enable_security "cost_preview"
    ∷ force_security "cost_preview"
    ∷ enable_security "approval"
    ∷ force_security "approval"
    ∷ []

abbrev pub approving_policies : List Ddl
approving_policies =
    create_policy "cost_preview" (
      policy "cost_preview_select_tenant" select (app_api ∷ app_worker ∷ app_readonly ∷ [])
        (some own_tenant) none)
    ∷ create_policy "cost_preview"
        (policy "cost_preview_insert_tenant" insert (app_api ∷ []) none (some own_tenant))
    ∷ create_policy "cost_preview" (
        policy "cost_preview_update_tenant" update (app_api ∷ []) (some own_tenant)
          (some own_tenant))
    ∷ create_policy "cost_preview"
        (policy "cost_preview_delete_tenant" delete (app_api ∷ []) (some own_tenant) none)
    ∷ create_policy "approval"
        (policy "approval_select_tenant" select (app_api ∷ []) (some own_tenant) none)
    ∷ create_policy "approval"
        (policy "approval_insert_tenant" insert (app_api ∷ []) none (some own_tenant))
    ∷ create_policy "approval"
        (policy "approval_update_tenant" update (app_api ∷ []) (some own_tenant) (some own_tenant))
    ∷ create_policy "approval"
        (policy "approval_delete_tenant" delete (app_api ∷ []) (some own_tenant) none)
    ∷ []

abbrev pub approving_triggers : List Ddl
approving_triggers =
    create_trigger "cost_preview"
      (trigger "trg_cost_preview_enforce_tenant" "before insert or update" "app.tg_enforce_tenant")
    ∷ create_trigger "approval"
        (trigger "trg_approval_enforce_tenant" "before insert or update" "app.tg_enforce_tenant")
    ∷ []

abbrev pub approving_grants : List Ddl
approving_grants = revoke_on all_commands ("approval" ∷ []) app_worker ∷ []

abbrev pub approving_upgrade : List Ddl
approving_upgrade =
    approving_tables ++ approving_security ++ approving_policies ++ approving_triggers
    ++ approving_grants

abbrev pub approving_downgrade : List Ddl
approving_downgrade =
    drop_trigger "trg_cost_preview_enforce_tenant" "cost_preview"
    ∷ drop_trigger "trg_approval_enforce_tenant" "approval"
    ∷ drop_policy "cost_preview_select_tenant" "cost_preview"
    ∷ drop_policy "cost_preview_insert_tenant" "cost_preview"
    ∷ drop_policy "cost_preview_update_tenant" "cost_preview"
    ∷ drop_policy "cost_preview_delete_tenant" "cost_preview"
    ∷ drop_policy "approval_select_tenant" "approval"
    ∷ drop_policy "approval_insert_tenant" "approval"
    ∷ drop_policy "approval_update_tenant" "approval"
    ∷ drop_policy "approval_delete_tenant" "approval"
    ∷ drop_constraint "fk_audit_card__approval" "audit_card"
    ∷ drop_table "approval"
    ∷ drop_table "cost_preview"
    ∷ []
