-- ===== src/Migrations/Permits.antt =====
-- What a role may do to a row: a privilege on the table, and on a secured table a policy that takes
-- the row. It is PostgreSQL's rule for a role that neither owns the table nor bypasses row-level
-- security.
use as_baptist_api.Prelude.{
  ℕ, Bool, true, false, ◌&&◌, ◌||◌, not, String, Option, none, some, any_row, find_row,
}
use as_baptist_api.Db.{Caller, Db, owned, is_actor, can_read_location}
use as_baptist_api.Migrations.Objects.{
  Role, Command, select, insert, update, delete, Condition, own_tenant, is_tenant, is_caller,
  own_membership, readable_location, Policy, TableState, Schema, same_role, same_command,
}
use as_baptist_api.Migrations.Ddl.{has_privilege, is_table}

-- What the conditions read of a row: its identifier, and the tenant that it belongs to. That is its
-- `tenant_id`, for a row of `tenant` its `id`, and for one of `membership_location` the tenant of its
-- membership.
pub record RowFacts : Type 0 where
  pub id : ℕ
  pub tenant : ℕ

unfoldable pub holds : Condition → Caller → Db → RowFacts → Bool
holds own_tenant c db row = owned c row.tenant
holds is_tenant c db row = owned c row.tenant
holds is_caller c db row = is_actor c row.id
holds own_membership c db row = owned c row.tenant
holds readable_location c db row = owned c row.tenant && can_read_location c db row.id

-- A clause that a policy has not does not restrict.
abbrev pub clause_holds : Option Condition → Caller → Db → RowFacts → Bool
clause_holds none c db row = true
clause_holds (some k) c db row = holds k c db row

-- Reading and deleting ask the clause `using`, inserting the clause `with check`, updating both.
abbrev pub admits : Command → Option Condition → Option Condition → Caller → Db → RowFacts → Bool
admits select u w c db row = clause_holds u c db row
admits delete u w c db row = clause_holds u c db row
admits insert u w c db row = clause_holds w c db row
admits update u w c db row = clause_holds u c db row && clause_holds w c db row

abbrev pub applies : Role → Command → Policy → Bool
applies r cmd p = any_row (same_role r) p.roles && same_command p.command cmd

abbrev pub policy_admits : Role → Command → Caller → Db → RowFacts → Policy → Bool
policy_admits r cmd c db row p = applies r cmd p && admits cmd p.using_ p.check c db row

abbrev pub permitted : Role → Command → Caller → Db → RowFacts → TableState → Bool
permitted r cmd c db row t =
    has_privilege r cmd t.grants
    && (not t.secured || any_row (policy_admits r cmd c db row) t.policies)

abbrev pub permitted_in : Role → Command → Caller → Db → RowFacts → Option TableState → Bool
permitted_in r cmd c db row none = false
permitted_in r cmd c db row (some t) = permitted r cmd c db row t

-- Whether a role may do something to a row of the table of that name.
abbrev pub may : Schema → String → Role → Command → Caller → Db → RowFacts → Bool
may s name r cmd c db row = permitted_in r cmd c db row (find_row (is_table name) s.tables)
