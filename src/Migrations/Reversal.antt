-- ===== src/Migrations/Reversal.antt =====
-- What a downgrade takes back.
use mathlib.Core.Path.{refl}
use as_baptist_api.Prelude.{◌≡◌, String, List, [], map}
use as_baptist_api.Migrations.{
  Role, Command, TableState, FunctionState, Namespace, Schema, apply, apply_all, Revision, spine,
  access, places, spending, approving, upgrade, downgrade, down_revision, bare,
}

-- The objects of a schema: its types, namespaces, functions and tables, with the columns,
-- constraints, indexes, policies and triggers of each, and without extensions, roles and privileges.
abbrev pub objects : Schema → Schema
objects s = record {
  extensions = [];
  roles = [];
  types = s.types;
  namespaces =
      map
        (λ (n : Namespace). record n {
          users = [];
          functions = map (λ (f : FunctionState). record f { executors = [] }) n.functions;
        })
        s.namespaces;
  public_users = [];
  defaults = [];
  tables = map (λ (t : TableState). record t { grants = [] }) s.tables;
}

module _ (extensions : List String) (roles public_users : List Role)
    (defaults : List (Role × Command)) where
  -- Each downgrade takes back what its upgrade has made. From the schema that a revision finds, on a
  -- database without tables, types and namespaces of its own, the upgrade and then the downgrade lead
  -- back to the same types, namespaces, functions and tables, with the same columns, constraints,
  -- indexes, policies and triggers. Of extensions, roles and privileges nothing is said.
  pub downgrade_undoes :
      (r : Revision)
      → let found = down_revision r (bare extensions roles public_users defaults) in
        objects (apply_all (downgrade r) (apply_all (upgrade r) found)) ≡ objects found
  unfolding apply
  downgrade_undoes spine = refl
  downgrade_undoes access = refl
  downgrade_undoes places = refl
  downgrade_undoes spending = refl
  downgrade_undoes approving = refl
