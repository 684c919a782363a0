-- ===== src/Migrations/Spending.antt =====
-- `migrations/versions/0004_audit_and_cost.py`: audit cards, ledger and budgets.
use as_baptist_api.Prelude.{true, false, none, some, List, [], ◌∷◌, ◌++◌}
use as_baptist_api.Migrations.Objects.{
  Table, app_api, app_readonly, app_worker, bigint, boolean, column, date, delete, enum,
  foreign_key, identity_column, index, insert, integer, jsonb, numeric_scale, own_tenant, policy,
  select, text, timestamptz, trigger, update, uuid,
}
use as_baptist_api.Migrations.Ddl.{
  Ddl, all_commands, create_function, create_index, create_policy, create_schema, create_table,
  create_trigger, drop_function, drop_index, drop_policy, drop_schema, drop_table, drop_trigger,
  enable_security, force_security, grant_execute, grant_on, grant_usage, revoke_execute_from_public,
  revoke_on,
}

abbrev pub audit_card_table : Table
audit_card_table = record {
  name = "audit_card";
  columns =
      identity_column "id" bigint
      ∷ column "tenant_id" uuid none false
      ∷ column "location_id" uuid none true
      ∷ column "occurred_at" timestamptz (some "now()") false
      ∷ column "actor_id" uuid none true
      ∷ column "actor_label" text none false
      ∷ column "actor_role" (enum "actor_role") none false
      ∷ column "verb" text none false
      ∷ column "action" text none false
      ∷ column "resource_type" text none false
      ∷ column "resource_id" text none true
      ∷ column "approval_id" uuid none true
      ∷ column "request_id" text none true
      ∷ column "detail" jsonb none true
      ∷ column "simulated" boolean (some "false") false
      ∷ column "source" (enum "data_source") (some "computed") false
      ∷ [];
  checks =
      (
        "audit_card_verb_check",
        "verb in ('create','update','delete','approve','reject','read','execute')",
      )
      ∷ [];
  foreign_keys =
      foreign_key ("tenant_id" ∷ []) ("tenant.id" ∷ []) false
      ∷ foreign_key ("location_id" ∷ []) ("location.id" ∷ []) false
      ∷ foreign_key ("actor_id" ∷ []) ("user_profile.id" ∷ []) false
      ∷ [];
  primary_key = "id" ∷ [];
  uniques = [];
}

abbrev pub cost_ledger_table : Table
cost_ledger_table = record {
  name = "cost_ledger";
  columns =
      identity_column "id" bigint
      ∷ column "tenant_id" uuid none false
      ∷ column "location_id" uuid none true
      ∷ column "occurred_at" timestamptz (some "now()") false
      ∷ column "billing_date" date (some "current_date") false
      ∷ column "provider" text none false
      ∷ column "operation" text none false
      ∷ column "unit" text none false
      ∷ column "units" integer none false
      ∷ column "unit_cost_usd" (numeric_scale 12 6) none false
      ∷ column "cost_usd" (numeric_scale 12 4) none false
      ∷ column "billing" text none false
      ∷ column "run_id" uuid none true
      ∷ column "approval_id" uuid none true
      ∷ column "scope" text none false
      ∷ column "description" text none true
      ∷ column "source" (enum "data_source") none false
      ∷ [];
  checks =
      ("cost_ledger_units_check", "units >= 0")
      ∷ ("cost_ledger_billing_check", "billing in ('billed','plan_credits','projected')")
      ∷ (
        "cost_ledger_math",
        "round(units * unit_cost_usd, 4) = cost_usd or billing = 'plan_credits'",
      )
      ∷ [];
  foreign_keys =
      foreign_key ("tenant_id" ∷ []) ("tenant.id" ∷ []) false
      ∷ foreign_key ("location_id" ∷ []) ("location.id" ∷ []) false
      ∷ [];
  primary_key = "id" ∷ [];
  uniques = [];
}

abbrev pub cost_budget_table : Table
cost_budget_table = record {
  name = "cost_budget";
  columns =
      column "id" uuid (some "gen_random_uuid()") false
      ∷ column "tenant_id" uuid none false
      ∷ column "period_month" date none false
      ∷ column "monthly_cap_usd" (numeric_scale 12 2) none false
      ∷ column "per_run_cap_usd" (numeric_scale 12 2) none false
      ∷ column "balance_floor_usd" (numeric_scale 12 2) (some "100.00") false
      ∷ column "hard_stop" boolean (some "true") false
      ∷ column "created_at" timestamptz (some "now()") false
      ∷ column "updated_at" timestamptz (some "now()") false
      ∷ [];
  checks = [];
  foreign_keys = foreign_key ("tenant_id" ∷ []) ("tenant.id" ∷ []) false ∷ [];
  primary_key = "id" ∷ [];
  uniques = ("tenant_id" ∷ "period_month" ∷ []) ∷ [];
}

abbrev pub spending_tables : List Ddl
spending_tables =
    create_table audit_card_table
    ∷ create_index "audit_card"
        (index "ix_audit_card__tenant_time" ("tenant_id" ∷ "occurred_at desc" ∷ []) false none)
    ∷ create_index "audit_card" (
        index "ix_audit_card__resource" ("tenant_id" ∷ "resource_type" ∷ "resource_id" ∷ []) false
          none)
    ∷ create_index "audit_card" (
        index "ix_audit_card__location" ("tenant_id" ∷ "location_id" ∷ "occurred_at desc" ∷ [])
          false none)
    ∷ create_table cost_ledger_table
    ∷ create_index "cost_ledger"
        (index "ix_cost_ledger__tenant_period" ("tenant_id" ∷ "billing_date desc" ∷ []) false none)
    ∷ create_index "cost_ledger" (
        index "ix_cost_ledger__provider" ("tenant_id" ∷ "provider" ∷ "billing_date desc" ∷ []) false
          none)
    ∷ create_table cost_budget_table
    ∷ []

abbrev pub spending_security : List Ddl
spending_security =
    enable_security "audit_card"
    ∷ force_security "audit_card"
    ∷ enable_security "cost_ledger"
    ∷ force_security "cost_ledger"
    ∷ enable_security "cost_budget"
    ∷ force_security "cost_budget"
    ∷ []

abbrev pub spending_policies : List Ddl
spending_policies =
    create_policy "audit_card" (
      policy "audit_card_select_tenant" select (app_api ∷ app_worker ∷ app_readonly ∷ [])
        (some own_tenant) none)
    ∷ create_policy "audit_card"
        (policy "audit_card_insert_worker" insert (app_worker ∷ []) none (some own_tenant))
    ∷ create_policy "cost_ledger" (
        policy "cost_ledger_select_tenant" select (app_api ∷ app_worker ∷ app_readonly ∷ [])
          (some own_tenant) none)
    ∷ create_policy "cost_ledger" (
        policy "cost_ledger_insert_tenant" insert (app_api ∷ app_worker ∷ []) none
          (some own_tenant))
    ∷ create_policy "cost_ledger" (
        policy "cost_ledger_update_tenant" update (app_api ∷ []) (some own_tenant)
          (some own_tenant))
    ∷ create_policy "cost_ledger"
        (policy "cost_ledger_delete_tenant" delete (app_api ∷ []) (some own_tenant) none)
    ∷ create_policy "cost_budget" (
        policy "cost_budget_select_tenant" select (app_api ∷ app_readonly ∷ []) (some own_tenant)
          none)
    ∷ create_policy "cost_budget"
        (policy "cost_budget_insert_tenant" insert (app_api ∷ []) none (some own_tenant))
    ∷ create_policy "cost_budget" (
        policy "cost_budget_update_tenant" update (app_api ∷ []) (some own_tenant)
          (some own_tenant))
    ∷ create_policy "cost_budget"
        (policy "cost_budget_delete_tenant" delete (app_api ∷ []) (some own_tenant) none)
    ∷ []

abbrev pub spending_triggers : List Ddl
spending_triggers =
    create_trigger "audit_card"
      (trigger "trg_audit_card_enforce_tenant" "before insert or update" "app.tg_enforce_tenant")
    ∷ create_trigger "cost_ledger"
        (trigger "trg_cost_ledger_enforce_tenant" "before insert or update" "app.tg_enforce_tenant")
    ∷ create_trigger "cost_budget"
        (trigger "trg_cost_budget_enforce_tenant" "before insert or update" "app.tg_enforce_tenant")
    ∷ create_trigger "cost_budget"
        (trigger "trg_cost_budget_updated_at" "before update" "app.tg_set_updated_at")
    ∷ []

abbrev pub spending_grants : List Ddl
spending_grants =
    revoke_on (insert ∷ update ∷ delete ∷ []) ("audit_card" ∷ []) app_api
    ∷ grant_on (insert ∷ []) ("audit_card" ∷ []) (app_worker ∷ [])
    ∷ grant_on (insert ∷ []) ("cost_ledger" ∷ []) (app_worker ∷ [])
    ∷ revoke_on all_commands ("cost_budget" ∷ []) app_worker
    ∷ []

abbrev pub spending_functions : List Ddl
spending_functions = create_schema "audit" ∷ create_function "audit" "tg_forbid_mutation" ∷ []

abbrev pub spending_triggers_after : List Ddl
spending_triggers_after =
    create_trigger "audit_card"
      (trigger "trg_audit_card_immutable" "before update or delete" "audit.tg_forbid_mutation")
    ∷ []

abbrev pub spending_functions_after : List Ddl
spending_functions_after =
    create_function "audit" "write_card"
    ∷ revoke_execute_from_public "audit" "write_card"
    ∷ grant_execute "audit" "write_card" (app_api ∷ app_worker ∷ [])
    ∷ create_schema "cost"
    ∷ create_function "cost" "month_spend"
    ∷ create_function "cost" "assert_budget"
    ∷ grant_usage ("audit" ∷ "cost" ∷ []) (app_api ∷ app_worker ∷ [])
    ∷ grant_execute "cost" "month_spend" (app_api ∷ app_worker ∷ [])
    ∷ grant_execute "cost" "assert_budget" (app_api ∷ app_worker ∷ [])
    ∷ []

abbrev pub spending_upgrade : List Ddl
spending_upgrade =
    spending_tables ++ spending_security ++ spending_policies ++ spending_triggers
    ++ spending_grants ++ spending_functions ++ spending_triggers_after ++ spending_functions_after

abbrev pub spending_downgrade : List Ddl
spending_downgrade =
    drop_function "cost" "assert_budget"
    ∷ drop_function "cost" "month_spend"
    ∷ drop_schema "cost"
    ∷ drop_function "audit" "write_card"
    ∷ drop_trigger "trg_audit_card_immutable" "audit_card"
    ∷ drop_function "audit" "tg_forbid_mutation"
    ∷ drop_schema "audit"
    ∷ drop_trigger "trg_audit_card_enforce_tenant" "audit_card"
    ∷ drop_trigger "trg_cost_ledger_enforce_tenant" "cost_ledger"
    ∷ drop_trigger "trg_cost_budget_enforce_tenant" "cost_budget"
    ∷ drop_trigger "trg_cost_budget_updated_at" "cost_budget"
    ∷ drop_policy "audit_card_select_tenant" "audit_card"
    ∷ drop_policy "audit_card_insert_worker" "audit_card"
    ∷ drop_policy "cost_ledger_select_tenant" "cost_ledger"
    ∷ drop_policy "cost_ledger_insert_tenant" "cost_ledger"
    ∷ drop_policy "cost_ledger_update_tenant" "cost_ledger"
    ∷ drop_policy "cost_ledger_delete_tenant" "cost_ledger"
    ∷ drop_policy "cost_budget_select_tenant" "cost_budget"
    ∷ drop_policy "cost_budget_insert_tenant" "cost_budget"
    ∷ drop_policy "cost_budget_update_tenant" "cost_budget"
    ∷ drop_policy "cost_budget_delete_tenant" "cost_budget"
    ∷ drop_table "cost_budget"
    ∷ drop_index "ix_cost_ledger__provider" "cost_ledger"
    ∷ drop_index "ix_cost_ledger__tenant_period" "cost_ledger"
    ∷ drop_table "cost_ledger"
    ∷ drop_index "ix_audit_card__location" "audit_card"
    ∷ drop_index "ix_audit_card__resource" "audit_card"
    ∷ drop_index "ix_audit_card__tenant_time" "audit_card"
    ∷ drop_table "audit_card"
    ∷ []
