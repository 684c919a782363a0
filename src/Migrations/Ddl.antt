-- ===== src/Migrations/Ddl.antt =====
-- The statements of the migrations, and what each does. A statement names its objects; one that
-- creates puts the object in front, and one that drops takes the first of its name away, with
-- everything that stands on it.
use as_baptist_api.Prelude.{
  Bool, true, false, ◌&&◌, not, String, List, [], ◌∷◌, ◌++◌, map, str_eq, any_row, where_rows,
  update_rows, if◌then◌else◌,
}
use as_baptist_api.Migrations.Objects.{
  Table, Index, ForeignKey, Role, Command, select, insert, update, delete, Policy, Trigger,
  TableState, FunctionState, Namespace, Schema, same_role, same_command,
}

pub data Ddl : Type 0 where
  create_extension : String → Ddl
  create_type : String → List String → Ddl
  drop_type : String → Ddl
  create_table : Table → Ddl
  drop_table : String → Ddl
  create_index : String → Index → Ddl
  drop_index : String → String → Ddl
  create_foreign_key : String → String → ForeignKey → Ddl
  drop_constraint : String → String → Ddl
  create_schema : String → Ddl
  drop_schema : String → Ddl
  create_function : String → String → Ddl
  drop_function : String → String → Ddl
  create_roles : List Role → Ddl
  restrict_role : Role → Ddl
  enable_security force_security no_force_security disable_security : String → Ddl
  create_policy : String → Policy → Ddl
  drop_policy : String → String → Ddl
  create_trigger : String → Trigger → Ddl
  drop_trigger : String → String → Ddl
  revoke_public : Ddl
  grant_public_usage : List Role → Ddl
  grant_usage : List String → List Role → Ddl
  grant_execute : String → String → List Role → Ddl
  revoke_execute_from_public : String → String → Ddl
  grant_on : List Command → List String → List Role → Ddl
  grant_on_all : List Command → List Role → Ddl
  revoke_on : List Command → List String → Role → Ddl
  alter_defaults : List Command → List Role → Ddl

-- The first row that passes a test is taken away.
abbrev pub drop_first : {A : Type 0} → (A → Bool) → List A → List A
drop_first p [] = []
drop_first p (x ∷ xs) = let rest = drop_first p xs in if p x then xs else x ∷ rest

abbrev pub is_table : String → TableState → Bool
is_table t s = str_eq s.definition.name t

abbrev pub is_namespace : String → Namespace → Bool
is_namespace n s = str_eq s.name n

abbrev on_table : String → (TableState → TableState) → Schema → Schema
on_table t f s = record s { tables = update_rows (is_table t) f s.tables }

abbrev in_namespace : String → (Namespace → Namespace) → Schema → Schema
in_namespace n f s = record s { namespaces = update_rows (is_namespace n) f s.namespaces }

abbrev named : String → String → Bool
named a b = str_eq b a

-- A privilege for each command and each role.
abbrev for_role : List Command → Role → List (Role × Command)
for_role [] r = []
for_role (c ∷ cs) r = (r, c) ∷ for_role cs r

abbrev privileges : List Command → List Role → List (Role × Command)
privileges cs [] = []
privileges cs (r ∷ rs) = for_role cs r ++ privileges cs rs

abbrev pub has_privilege : Role → Command → List (Role × Command) → Bool
has_privilege r c = any_row (λ g. same_role g.0 r && same_command g.1 c)

abbrev taken_away : List Command → Role → Role × Command → Bool
taken_away cs r g = not (same_role g.0 r && any_row (same_command g.1) cs)

abbrev one_of : List String → TableState → Bool
one_of ts s = any_row (λ t. is_table t s) ts

-- The new table, with the privileges that are granted by default.
abbrev new_table : Schema → Table → TableState
new_table s t = record {
  definition = t;
  secured = false;
  forced = false;
  policies = [];
  triggers = [];
  indexes = [];
  added_keys = [];
  grants = s.defaults;
}

abbrev pub is_type : String → String × List String → Bool
is_type n t = str_eq t.0 n

-- What a statement does to the schema. What is created `if not exists` leaves what is there; `drop
-- schema … cascade` takes the functions with it. Two kinds of statement change nothing here: every
-- role is made without `bypassrls`, which is what restricting one says, and the privileges of PUBLIC,
-- which the revocations take away, are not kept.
unfoldable pub apply : Ddl → Schema → Schema
apply (create_extension e) s = record s {
  extensions = if any_row (named e) s.extensions then s.extensions else e ∷ s.extensions;
}
apply (create_type n vs) s = record s {
  types = if any_row (is_type n) s.types then s.types else (n, vs) ∷ s.types;
}
apply (drop_type n) s = record s { types = drop_first (is_type n) s.types }
apply (create_table t) s = record s { tables = new_table s t ∷ s.tables }
apply (drop_table t) s = record s { tables = drop_first (is_table t) s.tables }
apply (create_index t i) s = on_table t (λ x. record x { indexes = i ∷ x.indexes }) s
apply (drop_index n t) s =
    on_table t (λ x. record x { indexes = drop_first (λ i. str_eq i.name n) x.indexes }) s
apply (create_foreign_key n t k) s =
    on_table t (λ x. record x { added_keys = (n, k) ∷ x.added_keys }) s
apply (drop_constraint n t) s =
    on_table t (λ x. record x { added_keys = drop_first (λ k. str_eq k.0 n) x.added_keys }) s
apply (create_schema n) s = record s {
  namespaces =
      if any_row (is_namespace n) s.namespaces
      then s.namespaces
      else record { name = n; users = []; functions = [] } ∷ s.namespaces;
}
apply (drop_schema n) s = record s { namespaces = drop_first (is_namespace n) s.namespaces }
apply (create_function n f) s =
    in_namespace n (λ x. record x { functions = record { name = f; executors = [] } ∷ x.functions })
      s
apply (drop_function n f) s =
    in_namespace n
      (λ x. record x {
        functions = drop_first (λ (g : FunctionState). str_eq g.name f) x.functions;
      })
      s
apply (create_roles rs) s = record s {
  roles = where_rows (λ r. not (any_row (same_role r) s.roles)) rs ++ s.roles;
}
apply (restrict_role r) s = s
apply (enable_security t) s = on_table t (λ x. record x { secured = true }) s
apply (force_security t) s = on_table t (λ x. record x { forced = true }) s
apply (no_force_security t) s = on_table t (λ x. record x { forced = false }) s
apply (disable_security t) s = on_table t (λ x. record x { secured = false }) s
apply (create_policy t p) s = on_table t (λ x. record x { policies = p ∷ x.policies }) s
apply (drop_policy n t) s =
    on_table t
      (λ x. record x { policies = drop_first (λ (p : Policy). str_eq p.name n) x.policies }) s
apply (create_trigger t g) s = on_table t (λ x. record x { triggers = g ∷ x.triggers }) s
apply (drop_trigger n t) s =
    on_table t
      (λ x. record x { triggers = drop_first (λ (g : Trigger). str_eq g.name n) x.triggers }) s
apply revoke_public s = s
apply (grant_public_usage rs) s = record s { public_users = rs ++ s.public_users }
apply (grant_usage ns rs) s = record s {
  namespaces =
      update_rows (λ (x : Namespace). any_row (λ n. is_namespace n x) ns)
        (λ x. record x { users = rs ++ x.users }) s.namespaces;
}
apply (grant_execute n f rs) s =
    in_namespace n
      (λ x. record x {
        functions =
            update_rows (λ (g : FunctionState). str_eq g.name f)
              (λ g. record g { executors = rs ++ g.executors }) x.functions;
      })
      s
apply (revoke_execute_from_public n f) s = s
apply (grant_on cs ts rs) s = record s {
  tables =
      update_rows (one_of ts) (λ x. record x { grants = privileges cs rs ++ x.grants }) s.tables;
}
apply (grant_on_all cs rs) s = record s {
  tables = map (λ (x : TableState). record x { grants = privileges cs rs ++ x.grants }) s.tables;
}
apply (revoke_on cs ts r) s = record s {
  tables =
      update_rows (one_of ts) (λ x. record x { grants = where_rows (taken_away cs r) x.grants })
        s.tables;
}
apply (alter_defaults cs rs) s = record s { defaults = privileges cs rs ++ s.defaults }

-- The statements of a migration, one after the other.
abbrev pub apply_all : List Ddl → Schema → Schema
apply_all [] s = s
apply_all (d ∷ ds) s = apply_all ds (apply d s)

abbrev pub all_commands : List Command
all_commands = select ∷ insert ∷ update ∷ delete ∷ []
