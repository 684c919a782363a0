-- ===== src/Examples/Schemas.antt =====
-- The schema on a database with an extension, under the caller of one tenant.
use as_baptist_api.Migrations.Agreement.{policies_agree, IsAsModelled}
use as_baptist_api.Migrations.Runs.{chain_accepted}
use mathlib.Core.Path.{refl}
use as_baptist_api.Prelude.{true, ◌≡◌, false, [], ◌∷◌}
use as_baptist_api.Db.{owned}
use as_baptist_api.Migrations.{
  accepts_all, RowFacts, app_api, app_worker, app_migrator, update, insert, places, apply_all,
  upgrade, downgrade, down_revision, deployed, bare, may, Schema,
}
use as_baptist_api.Prelude.{some, none}
use as_baptist_api.Migrations.{
  accepts, apply, drop_function, create_policy, create_roles, policy, select, is_tenant, access,
  spending,
}
use as_baptist_api.Migrations.Reversal.{downgrade_undoes, objects}
use as_baptist_api.Migrations.Isolated.{foreign_row_refused, audit_card_append_only}
use as_baptist_api.Examples.World.{world, operator_caller}

abbrev found : Schema
found = down_revision places (bare ("citext" ∷ []) (app_migrator ∷ []) [] [])

downgrade_undoes_example :
    objects (apply_all (downgrade places) (apply_all (upgrade places) found)) ≡ objects found
downgrade_undoes_example = downgrade_undoes ("citext" ∷ []) (app_migrator ∷ []) [] [] places

abbrev served : Schema
served = deployed (bare ("citext" ∷ []) (app_migrator ∷ []) [] [])

-- A row of another tenant, and one of the caller's own.
abbrev theirs : RowFacts
theirs = record { id = 3; tenant = 2 }

abbrev mine : RowFacts
mine = record { id = 7; tenant = 1 }

foreign_row_refused_example :
    may served "location" app_api update operator_caller world theirs ≡ false
foreign_row_refused_example =
    foreign_row_refused ("citext" ∷ []) (app_migrator ∷ []) [] [] app_api update "location"
      operator_caller world theirs refl refl

policies_agree_example : IsAsModelled served
policies_agree_example = policies_agree ("citext" ∷ []) (app_migrator ∷ []) [] []

audit_card_append_only_example :
    may served "audit_card" app_worker insert operator_caller world mine ≡ owned operator_caller 1
audit_card_append_only_example =
    audit_card_append_only ("citext" ∷ []) (app_migrator ∷ []) [] app_worker insert operator_caller
      world mine

abbrev fresh : Schema
fresh = down_revision places (bare ("citext" ∷ []) [] [] [])

chain_accepted_example :
    (accepts_all (upgrade places) fresh ≡ true)
    × (accepts_all (downgrade places) (apply_all (upgrade places) fresh) ≡ true)
chain_accepted_example = chain_accepted ("citext" ∷ []) [] [] places

abbrev spent : Schema
spent = apply_all (upgrade spending) (down_revision spending (bare ("citext" ∷ []) [] [] []))

-- A misspelled function is not there to be dropped.
misspelled_refused : accepts (drop_function "cost" "assert_budgett") spent ≡ false
unfolding accepts apply
misspelled_refused = refl

-- A policy before the functions that it calls.
early_policy_refused :
    accepts
      (create_policy "tenant"
        (policy "tenant_context_select" select (app_api ∷ []) (some is_tenant) none))
      (apply_all
        (create_roles (app_api ∷ []) ∷ [])
        (down_revision access (bare ("citext" ∷ []) [] [] [])))
    ≡ false
unfolding accepts apply
early_policy_refused = refl
