-- ===== src/Migrations/Access.antt =====
-- `migrations/versions/0002_roles_and_functions.py`: roles, functions and row-level security.
use as_baptist_api.Prelude.{none, some, List, [], ◌∷◌, ◌++◌}
use as_baptist_api.Migrations.Objects.{
  app_api, app_migrator, app_readonly, app_worker, delete, insert, is_caller, is_tenant,
  own_membership, own_tenant, policy, select, trigger, update,
}
use as_baptist_api.Migrations.Ddl.{
  Ddl, all_commands, alter_defaults, create_function, create_policy, create_roles, create_schema,
  create_trigger, disable_security, drop_policy, drop_schema, drop_trigger, enable_security,
  force_security, grant_execute, grant_on, grant_on_all, grant_public_usage, grant_usage,
  no_force_security, restrict_role, revoke_on, revoke_public,
}

abbrev pub access_functions : List Ddl
access_functions =
    create_schema "app"
    ∷ create_roles (app_migrator ∷ app_api ∷ app_worker ∷ app_readonly ∷ [])
    ∷ []

abbrev pub access_grants : List Ddl
access_grants =
    restrict_role app_api
    ∷ restrict_role app_worker
    ∷ restrict_role app_readonly
    ∷ revoke_public
    ∷ grant_public_usage (app_api ∷ app_worker ∷ app_readonly ∷ [])
    ∷ grant_on (select ∷ insert ∷ update ∷ delete ∷ [])
        ("tenant" ∷ "user_profile" ∷ "membership" ∷ "membership_location" ∷ "tenant_credential"
          ∷ [])
        (app_api ∷ [])
    ∷ grant_on_all (select ∷ []) (app_worker ∷ app_readonly ∷ [])
    ∷ revoke_on all_commands
        ("user_profile" ∷ "membership" ∷ "membership_location" ∷ "tenant_credential" ∷ [])
        app_worker
    ∷ grant_on_all (select ∷ []) (app_readonly ∷ [])
    ∷ alter_defaults (select ∷ insert ∷ update ∷ delete ∷ []) (app_api ∷ [])
    ∷ alter_defaults (select ∷ []) (app_worker ∷ app_readonly ∷ [])
    ∷ []

abbrev pub access_functions_after : List Ddl
access_functions_after =
    create_function "app" "current_tenant_id"
    ∷ create_function "app" "current_actor_id"
    ∷ create_function "app" "current_role"
    ∷ create_function "app" "is_operator"
    ∷ create_function "app" "can_read_location"
    ∷ create_function "app" "tg_enforce_tenant"
    ∷ create_function "app" "tg_set_updated_at"
    ∷ grant_usage ("app" ∷ []) (app_api ∷ app_worker ∷ app_readonly ∷ [])
    ∷ grant_execute "app" "current_tenant_id" (app_api ∷ app_worker ∷ app_readonly ∷ [])
    ∷ grant_execute "app" "current_actor_id" (app_api ∷ app_worker ∷ app_readonly ∷ [])
    ∷ grant_execute "app" "current_role" (app_api ∷ app_worker ∷ app_readonly ∷ [])
    ∷ grant_execute "app" "is_operator" (app_api ∷ app_worker ∷ app_readonly ∷ [])
    ∷ grant_execute "app" "can_read_location" (app_api ∷ app_worker ∷ app_readonly ∷ [])
    ∷ []

abbrev pub access_security : List Ddl
access_security =
    enable_security "tenant"
    ∷ force_security "tenant"
    ∷ enable_security "user_profile"
    ∷ force_security "user_profile"
    ∷ enable_security "membership"
    ∷ force_security "membership"
    ∷ enable_security "membership_location"
    ∷ force_security "membership_location"
    ∷ enable_security "tenant_credential"
    ∷ force_security "tenant_credential"
    ∷ []

abbrev pub access_policies : List Ddl
access_policies =
    create_policy "tenant" (
      policy "tenant_context_select" select (app_api ∷ app_worker ∷ app_readonly ∷ [])
        (some is_tenant) none)
    ∷ create_policy "user_profile"
        (policy "user_profile_self" select (app_api ∷ []) (some is_caller) none)
    ∷ create_policy "membership" (
        policy "membership_select_tenant" select (app_api ∷ app_worker ∷ app_readonly ∷ [])
          (some own_tenant) none)
    ∷ create_policy "membership" (
        policy "membership_insert_tenant" insert (app_api ∷ app_worker ∷ []) none (some own_tenant))
    ∷ create_policy "membership" (
        policy "membership_update_tenant" update (app_api ∷ app_worker ∷ []) (some own_tenant)
          (some own_tenant))
    ∷ create_policy "membership"
        (policy "membership_delete_tenant" delete (app_api ∷ []) (some own_tenant) none)
    ∷ create_policy "membership_location" (
        policy "membership_location_select" select (app_api ∷ app_worker ∷ app_readonly ∷ [])
          (some own_membership) none)
    ∷ create_policy "membership_location" (
        policy "membership_location_insert" insert (app_api ∷ app_worker ∷ []) none
          (some own_membership))
    ∷ create_policy "membership_location" (
        policy "membership_location_update" update (app_api ∷ app_worker ∷ []) (some own_membership)
          (some own_membership))
    ∷ create_policy "membership_location"
        (policy "membership_location_delete" delete (app_api ∷ []) (some own_membership) none)
    ∷ create_policy "tenant_credential"
        (policy "tenant_credential_select_tenant" select (app_api ∷ []) (some own_tenant) none)
    ∷ create_policy "tenant_credential" (
        policy "tenant_credential_insert_tenant" insert (app_api ∷ app_worker ∷ []) none
          (some own_tenant))
    ∷ create_policy "tenant_credential" (
        policy "tenant_credential_update_tenant" update (app_api ∷ app_worker ∷ [])
          (some own_tenant) (some own_tenant))
    ∷ create_policy "tenant_credential"
        (policy "tenant_credential_delete_tenant" delete (app_api ∷ []) (some own_tenant) none)
    ∷ []

abbrev pub access_triggers : List Ddl
access_triggers =
    create_trigger "membership"
      (trigger "trg_membership_enforce_tenant" "before insert or update" "app.tg_enforce_tenant")
    ∷ create_trigger "tenant_credential" (
        trigger "trg_tenant_credential_enforce_tenant" "before insert or update"
          "app.tg_enforce_tenant")
    ∷ create_trigger "tenant"
        (trigger "trg_tenant_updated_at" "before update" "app.tg_set_updated_at")
    ∷ create_trigger "user_profile"
        (trigger "trg_user_profile_updated_at" "before update" "app.tg_set_updated_at")
    ∷ create_trigger "membership"
        (trigger "trg_membership_updated_at" "before update" "app.tg_set_updated_at")
    ∷ create_trigger "tenant_credential"
        (trigger "trg_tenant_credential_updated_at" "before update" "app.tg_set_updated_at")
    ∷ []

abbrev pub access_upgrade : List Ddl
access_upgrade =
    access_functions ++ access_grants ++ access_functions_after ++ access_security
    ++ access_policies ++ access_triggers

abbrev pub access_downgrade : List Ddl
access_downgrade =
    drop_trigger "trg_membership_enforce_tenant" "membership"
    ∷ drop_trigger "trg_tenant_credential_enforce_tenant" "tenant_credential"
    ∷ drop_trigger "trg_tenant_updated_at" "tenant"
    ∷ drop_trigger "trg_user_profile_updated_at" "user_profile"
    ∷ drop_trigger "trg_membership_updated_at" "membership"
    ∷ drop_trigger "trg_tenant_credential_updated_at" "tenant_credential"
    ∷ drop_policy "tenant_context_select" "tenant"
    ∷ drop_policy "user_profile_self" "user_profile"
    ∷ drop_policy "membership_select_tenant" "membership"
    ∷ drop_policy "membership_insert_tenant" "membership"
    ∷ drop_policy "membership_update_tenant" "membership"
    ∷ drop_policy "membership_delete_tenant" "membership"
    ∷ drop_policy "membership_location_select" "membership_location"
    ∷ drop_policy "membership_location_insert" "membership_location"
    ∷ drop_policy "membership_location_update" "membership_location"
    ∷ drop_policy "membership_location_delete" "membership_location"
    ∷ drop_policy "tenant_credential_select_tenant" "tenant_credential"
    ∷ drop_policy "tenant_credential_insert_tenant" "tenant_credential"
    ∷ drop_policy "tenant_credential_update_tenant" "tenant_credential"
    ∷ drop_policy "tenant_credential_delete_tenant" "tenant_credential"
    ∷ no_force_security "tenant"
    ∷ disable_security "tenant"
    ∷ no_force_security "user_profile"
    ∷ disable_security "user_profile"
    ∷ no_force_security "membership"
    ∷ disable_security "membership"
    ∷ no_force_security "membership_location"
    ∷ disable_security "membership_location"
    ∷ no_force_security "tenant_credential"
    ∷ disable_security "tenant_credential"
    ∷ drop_schema "app"
    ∷ []
