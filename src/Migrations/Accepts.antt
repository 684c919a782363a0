-- ===== src/Migrations/Accepts.antt =====
-- Which statements find all that they name: one that creates an object needs a free name and what it
-- names (`Migrations.Needs`), and one that drops an object needs it, and nothing else that stands on it.
use as_baptist_api.Prelude.{
  Bool, true, false, ◌&&◌, ◌||◌, not, String, List, [], ◌∷◌, str_eq, any_row, all_rows,
}
use as_baptist_api.Migrations.Objects.{
  ColumnType, enum, Column, ForeignKey, Index, Role, Policy, Trigger, TableState, FunctionState,
  Namespace, Schema, same_role,
}
use as_baptist_api.Migrations.Needs.{
  qualified, has_column, has_indexed, is_key_of, has_key_columns, functions_of, columns_of,
  tables_of, policy_names, policy_needs, calls,
}
use as_baptist_api.Migrations.Ddl.{
  Ddl, create_extension, create_type, drop_type, create_table, drop_table, create_index, drop_index,
  create_foreign_key, drop_constraint, create_schema, drop_schema, create_function, drop_function,
  create_roles, restrict_role, enable_security, force_security, no_force_security, disable_security,
  create_policy, drop_policy, create_trigger, drop_trigger, revoke_public, grant_public_usage,
  grant_usage, grant_execute, revoke_execute_from_public, grant_on, grant_on_all, revoke_on,
  alter_defaults, apply, is_table, is_namespace, is_type,
}

abbrev has_table : Schema → String → Bool
has_table s t = any_row (is_table t) s.tables

abbrev on_some : Schema → String → (TableState → Bool) → Bool
on_some s t p = any_row (λ (x : TableState). is_table t x && p x) s.tables

-- A column of the table that a reference `table.column` names.
abbrev owns_column : TableState → String → Bool
owns_column x ref =
    any_row (λ (c : Column). str_eq (qualified x.definition.name c.name) ref) x.definition.columns

-- The references are the primary key or a unique constraint of a table.
abbrev resolves : Schema → ForeignKey → Bool
resolves s k = any_row (λ (x : TableState). is_key_of x.definition k.references) s.tables

-- A table that has a foreign key to another.
abbrev points_to : TableState → TableState → Bool
points_to target x =
    any_row (λ (k : ForeignKey). any_row (owns_column target) k.references)
      x.definition.foreign_keys
    || any_row (λ (k : String × ForeignKey). any_row (owns_column target) k.1.references)
        x.added_keys

abbrev known_type : Schema → ColumnType → Bool
known_type s (enum n) = any_row (is_type n) s.types
known_type s _ = true

abbrev is_enum : String → ColumnType → Bool
is_enum n (enum m) = str_eq m n
is_enum n _ = false

abbrev uses_type : String → TableState → Bool
uses_type n x = any_row (λ (c : Column). is_enum n c.type) x.definition.columns

abbrev has_function : Schema → String → String → Bool
has_function s n f =
    any_row
      (λ (x : Namespace).
        is_namespace n x && any_row (λ (g : FunctionState). str_eq g.name f) x.functions)
      s.namespaces

abbrev is_function : Schema → String → Bool
is_function s name =
    any_row
      (λ (x : Namespace).
        any_row (λ (g : FunctionState). str_eq (qualified x.name g.name) name) x.functions)
      s.namespaces

abbrev has_index : String → TableState → Bool
has_index n x = any_row (λ (i : Index). str_eq i.name n) x.indexes

abbrev has_policy : String → TableState → Bool
has_policy n x = any_row (λ (p : Policy). str_eq p.name n) x.policies

abbrev has_trigger : String → TableState → Bool
has_trigger n x = any_row (λ (g : Trigger). str_eq g.name n) x.triggers

abbrev has_key_named : String → TableState → Bool
has_key_named n x = any_row (λ (k : String × ForeignKey). str_eq k.0 n) x.added_keys

abbrev known_roles : Schema → List Role → Bool
known_roles s rs = all_rows (λ r. any_row (same_role r) s.roles) rs

-- A policy of the table reads another.
abbrev reads_table : String → TableState → Bool
reads_table t x = any_row (policy_names tables_of (str_eq t)) x.policies

-- A trigger or a policy of the table calls a function of the namespace.
abbrev calls_in : String → TableState → Namespace → Bool
calls_in n x y =
    is_namespace n y
    && any_row (λ (g : FunctionState). calls (str_eq (qualified n g.name)) x) y.functions

-- What the bodies of functions, the expressions of check constraints and the conditions of indexes
-- name is not looked at, nor the extension of a column's type. A statement that says `if exists` is
-- held to the same as one that does not, and so is `drop schema … cascade`.
unfoldable pub accepts : Ddl → Schema → Bool
accepts (create_extension e) s = true
accepts (create_type n vs) s = true
accepts (drop_type n) s = any_row (is_type n) s.types && not (any_row (uses_type n) s.tables)
accepts (create_table t) s =
    not (has_table s t.name)
    && (all_rows (λ (c : Column). known_type s c.type) t.columns
        && (has_key_columns t && all_rows (resolves s) t.foreign_keys))
accepts (drop_table t) s =
    has_table s t
    && not (
        any_row
          (λ target.
            is_table t target
            && any_row (λ x. not (is_table t x) && (points_to target x || reads_table t x))
                s.tables)
          s.tables)
accepts (create_index t i) s =
    on_some s t (λ x. all_rows (has_indexed x.definition) i.columns)
    && not (any_row (has_index i.name) s.tables)
accepts (drop_index n t) s = on_some s t (has_index n)
accepts (create_foreign_key n t k) s =
    on_some s t (λ x. not (has_key_named n x) && all_rows (has_column x.definition) k.columns)
    && resolves s k
accepts (drop_constraint n t) s = on_some s t (has_key_named n)
accepts (create_schema n) s = true
accepts (drop_schema n) s =
    any_row (is_namespace n) s.namespaces
    && not (any_row (λ x. any_row (calls_in n x) s.namespaces) s.tables)
accepts (create_function n f) s = any_row (is_namespace n) s.namespaces
accepts (drop_function n f) s =
    has_function s n f && not (any_row (calls (str_eq (qualified n f))) s.tables)
accepts (create_roles rs) s = true
accepts (restrict_role r) s = known_roles s (r ∷ [])
accepts (enable_security t) s = has_table s t
accepts (force_security t) s = has_table s t
accepts (no_force_security t) s = has_table s t
accepts (disable_security t) s = has_table s t
accepts (create_policy t p) s =
    on_some s t
      (λ x. not (has_policy p.name x) && policy_needs columns_of (has_column x.definition) p)
    && (policy_needs functions_of (has_function s "app") p
        && (policy_needs tables_of (has_table s) p && known_roles s p.roles))
accepts (drop_policy n t) s = on_some s t (has_policy n)
accepts (create_trigger t g) s =
    on_some s t (λ x. not (has_trigger g.name x)) && is_function s g.function
accepts (drop_trigger n t) s = on_some s t (has_trigger n)
accepts revoke_public s = true
accepts (grant_public_usage rs) s = known_roles s rs
accepts (grant_usage ns rs) s =
    all_rows (λ n. any_row (is_namespace n) s.namespaces) ns && known_roles s rs
accepts (grant_execute n f rs) s = has_function s n f && known_roles s rs
accepts (revoke_execute_from_public n f) s = has_function s n f
accepts (grant_on cs ts rs) s = all_rows (has_table s) ts && known_roles s rs
accepts (grant_on_all cs rs) s = known_roles s rs
accepts (revoke_on cs ts r) s = all_rows (has_table s) ts && known_roles s (r ∷ [])
accepts (alter_defaults cs rs) s = known_roles s rs

abbrev pub accepts_all : List Ddl → Schema → Bool
accepts_all [] s = true
accepts_all (d ∷ ds) s = let rest = accepts_all ds (apply d s) in accepts d s && rest
