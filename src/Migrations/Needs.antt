-- ===== src/Migrations/Needs.antt =====
-- What the objects of the migrations name: a key and an index their columns, a policy the functions,
-- the columns and the tables of its conditions.
use Prim.Native.String.{◌++◌ as text_append}
use as_baptist_api.Prelude.{
  Bool, true, false, ◌&&◌, ◌||◌, String, Option, none, some, List, [], ◌∷◌, str_eq, any_row,
  all_rows, map,
}
use as_baptist_api.Migrations.Objects.{
  Column, ForeignKey, Table, Condition, own_tenant, is_tenant, is_caller, own_membership,
  readable_location, Policy, Trigger, TableState,
}

abbrev pub qualified : String → String → String
qualified a b = text_append a (text_append "." b)

abbrev pub has_column : Table → String → Bool
has_column t n = any_row (λ (c : Column). str_eq c.name n) t.columns

-- A column of an index, which may be in descending order.
abbrev pub has_indexed : Table → String → Bool
has_indexed t n =
    any_row (λ (c : Column). str_eq c.name n || str_eq (text_append c.name " desc") n) t.columns

abbrev pub same_texts : List String → List String → Bool
same_texts [] [] = true
same_texts (a ∷ xs) (b ∷ ys) = str_eq a b && same_texts xs ys
same_texts _ _ = false

-- References that are the primary key or a unique constraint of a table, as `table.column`.
abbrev pub is_key_of : Table → List String → Bool
is_key_of t refs =
    same_texts refs (map (qualified t.name) t.primary_key)
    || any_row (λ u. same_texts refs (map (qualified t.name) u)) t.uniques

-- The columns of the keys of a new table.
abbrev pub has_key_columns : Table → Bool
has_key_columns t =
    all_rows (has_column t) t.primary_key
    && (all_rows (all_rows (has_column t)) t.uniques
        && all_rows (λ (k : ForeignKey). all_rows (has_column t) k.columns) t.foreign_keys)

-- The functions of the namespace `app` that a condition calls.
abbrev pub functions_of : Condition → List String
functions_of own_tenant = "current_tenant_id" ∷ []
functions_of is_tenant = "current_tenant_id" ∷ []
functions_of is_caller = "current_actor_id" ∷ []
functions_of own_membership = "current_tenant_id" ∷ []
functions_of readable_location = "current_tenant_id" ∷ "can_read_location" ∷ []

abbrev pub columns_of : Condition → List String
columns_of own_tenant = "tenant_id" ∷ []
columns_of is_tenant = "id" ∷ []
columns_of is_caller = "id" ∷ []
columns_of own_membership = "membership_id" ∷ []
columns_of readable_location = "tenant_id" ∷ "id" ∷ []

-- The other tables that a condition reads.
abbrev pub tables_of : Condition → List String
tables_of own_membership = "membership" ∷ []
tables_of _ = []

-- What is named by the conditions of a policy, each by a list of its own.
abbrev pub named_by : (Condition → List String) → (String → Bool) → Option Condition → Bool
named_by names p none = false
named_by names p (some k) = any_row p (names k)

abbrev pub all_named : (Condition → List String) → (String → Bool) → Option Condition → Bool
all_named names p none = true
all_named names p (some k) = all_rows p (names k)

abbrev pub policy_names : (Condition → List String) → (String → Bool) → Policy → Bool
policy_names names p q = named_by names p q.using_ || named_by names p q.check

abbrev pub policy_needs : (Condition → List String) → (String → Bool) → Policy → Bool
policy_needs names p q = all_named names p q.using_ && all_named names p q.check

-- Whether a function, by its qualified name, is called by a policy or by a trigger of a table.
abbrev pub calls : (String → Bool) → TableState → Bool
calls p x =
    any_row (λ (g : Trigger). p g.function) x.triggers
    || any_row (policy_names functions_of (λ f. p (qualified "app" f))) x.policies
