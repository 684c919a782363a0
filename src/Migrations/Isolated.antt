-- ===== src/Migrations/Isolated.antt =====
-- Who may touch which row of the schema that the migrations leave.
use mathlib.Core.Path.{refl, ap, ◌∙◌}
use as_baptist_api.Prelude.{
  if◌then◌else◌, ◌≡◌, Bool, true, false, ◌&&◌, ◌||◌, String, Option, none, some, List, [], ◌∷◌,
  arith, eq_iff, str_eq, any_row, all_rows, find_row, Bool-cases, inl, inr,
}
use as_baptist_api.Db.{Caller, Db, owned}
use as_baptist_api.Migrations.{
  permitted_in, Role, app_migrator, app_api, app_worker, app_readonly, Command, select, insert,
  update, delete, Condition, own_tenant, is_tenant, is_caller, own_membership, readable_location,
  Policy, TableState, same_command, apply, is_table, deployed, bare, RowFacts, holds, clause_holds,
  admits, policy_admits, permitted, may,
}

-- A condition that only rows of the caller's tenant meet.
abbrev binds : Option Condition → Bool
binds none = false
binds (some is_caller) = false
binds (some _) = true

abbrev restricting : Command → Option Condition → Option Condition → Option Condition
restricting insert u w = w
restricting _ u w = u

abbrev binds_tenant : Policy → Bool
binds_tenant p = binds (restricting p.command p.using_ p.check)

abbrev is_isolated : TableState → Bool
is_isolated t =
    str_eq t.definition.name "user_profile"
    || (t.secured && (t.forced && all_rows binds_tenant t.policies))

module _ (c : Caller) (db : Db) (row : RowFacts) (foreign : owned c row.tenant ≡ false) where
  clause_refuses : (o : Option Condition) → binds o ≡ true → clause_holds o c db row ≡ false
  unfolding holds
  clause_refuses none b = absurd (cc b)
  clause_refuses (some own_tenant) b = foreign
  clause_refuses (some is_tenant) b = foreign
  clause_refuses (some is_caller) b = absurd (cc b)
  clause_refuses (some own_membership) b = foreign
  clause_refuses (some readable_location) b = ground (arith, foreign)

  command_refuses :
      (own cmd : Command) (u w : Option Condition)
      → binds (restricting own u w) ≡ true
      → (same_command own cmd && admits cmd u w c db row) ≡ false
  command_refuses select select u w b = clause_refuses u b
  command_refuses insert insert u w b = clause_refuses w b
  command_refuses update update u w b = let refused = clause_refuses u b in ground (arith, refused)
  command_refuses delete delete u w b = clause_refuses u b
  command_refuses select insert u w b = refl
  command_refuses select update u w b = refl
  command_refuses select delete u w b = refl
  command_refuses insert select u w b = refl
  command_refuses insert update u w b = refl
  command_refuses insert delete u w b = refl
  command_refuses update select u w b = refl
  command_refuses update insert u w b = refl
  command_refuses update delete u w b = refl
  command_refuses delete select u w b = refl
  command_refuses delete insert u w b = refl
  command_refuses delete update u w b = refl

  policy_refuses :
      (r : Role) (cmd : Command) (p : Policy)
      → binds_tenant p ≡ true
      → policy_admits r cmd c db row p ≡ false
  policy_refuses r cmd p b =
      let refused = command_refuses p.command cmd p.using_ p.check b in ground (arith, refused)

  policies_refuse :
      (r : Role) (cmd : Command) (ps : List Policy)
      → all_rows binds_tenant ps ≡ true
      → any_row (policy_admits r cmd c db row) ps ≡ false
  policies_refuse r cmd [] b = refl
  policies_refuse r cmd (p ∷ ps) b =
      let first : binds_tenant p ≡ true = ground (arith, b) in
      let rest : all_rows binds_tenant ps ≡ true = ground (arith, b) in
      cc (policy_refuses r cmd p first, policies_refuse r cmd ps rest)

  table_refuses :
      (r : Role) (cmd : Command) (t : TableState)
      → is_isolated t ≡ true
      → str_eq t.definition.name "user_profile" ≡ false
      → permitted r cmd c db row t ≡ false
  table_refuses r cmd t isolated other =
      let secured : t.secured ≡ true = ground (arith, isolated, other) in
      let bound_ : all_rows binds_tenant t.policies ≡ true = ground (arith, isolated, other) in
      let refused = policies_refuse r cmd t.policies bound_ in ground (arith, secured, refused)

  -- No table of the name, or an isolated one.
  tables_refuse :
      (r : Role) (cmd : Command) (name : String) (tables : List TableState)
      → all_rows is_isolated tables ≡ true
      → str_eq name "user_profile" ≡ false
      → permitted_in r cmd c db row (find_row (is_table name) tables) ≡ false
  tables_refuse r cmd name [] isolated other = refl
  tables_refuse r cmd name (t ∷ tables) isolated other =
      let first : is_isolated t ≡ true = ground (arith, isolated) in
      let rest : all_rows is_isolated tables ≡ true = ground (arith, isolated) in
      elim (Bool-cases (is_table name t)) [
        | inl here ↦
            let same : t.definition.name ≡ name = (eq_iff t.definition.name name).0 here in
            ap
              (λ b.
                permitted_in r cmd c db row (if b then some t else find_row (is_table name) tables))
              here
            ∙ table_refuses r cmd t first (ap (λ n. str_eq n "user_profile") same ∙ other)
        | inr elsewhere ↦
            ap
              (λ b.
                permitted_in r cmd c db row (if b then some t else find_row (is_table name) tables))
              elsewhere
            ∙ tables_refuse r cmd name tables rest other
      ]

pub or_false : (b : Bool) → (b || false) ≡ b
or_false true = refl
or_false false = refl

module _ (extensions : List String) (roles public_users : List Role)
    (defaults : List (Role × Command)) where
  all_isolated :
      all_rows is_isolated (deployed (bare extensions roles public_users defaults)).tables ≡ true
  unfolding apply
  all_isolated = refl

  -- In the schema that the migrations leave on a database without tables, no role that row-level
  -- security holds for may read, insert, update or delete a row of a tenant other than the one that
  -- is bound, in any table but `user_profile`, whatever its privileges are. Without a bound tenant
  -- that is every row.
  pub foreign_row_refused :
      (r : Role) (cmd : Command) (name : String) (c : Caller) (db : Db) (row : RowFacts)
      → str_eq name "user_profile" ≡ false
      → owned c row.tenant ≡ false
      → may (deployed (bare extensions roles public_users defaults)) name r cmd c db row ≡ false
  foreign_row_refused r cmd name c db row other foreign =
      tables_refuse c db row foreign r cmd name
        (deployed (bare extensions roles public_users defaults)).tables all_isolated other

-- The API and the readers may read audit cards, the worker may insert them, too.
abbrev may_write_cards : Role → Command → Bool
may_write_cards app_api cmd = same_command select cmd
may_write_cards app_readonly cmd = same_command select cmd
may_write_cards app_worker cmd = same_command select cmd || same_command insert cmd
may_write_cards app_migrator cmd = false

module _ (extensions : List String) (roles public_users : List Role) where
  -- In the schema that the migrations leave on a database without tables and without default
  -- privileges, audit cards are append-only: of the roles that row-level security holds for, the API,
  -- the worker and the readers may read the cards of the bound tenant, the worker may insert them for
  -- it, and no role may do anything else to a card.
  pub audit_card_append_only :
      (r : Role) (cmd : Command) (c : Caller) (db : Db) (row : RowFacts)
      → may (deployed (bare extensions roles public_users [])) "audit_card" r cmd c db row
        ≡ (may_write_cards r cmd && owned c row.tenant)
  unfolding apply holds
  audit_card_append_only app_api select c db row = or_false (owned c row.tenant)
  audit_card_append_only app_api insert c db row = refl
  audit_card_append_only app_api update c db row = refl
  audit_card_append_only app_api delete c db row = refl
  audit_card_append_only app_worker select c db row = or_false (owned c row.tenant)
  audit_card_append_only app_worker insert c db row = or_false (owned c row.tenant)
  audit_card_append_only app_worker update c db row = refl
  audit_card_append_only app_worker delete c db row = refl
  audit_card_append_only app_readonly select c db row = or_false (owned c row.tenant)
  audit_card_append_only app_readonly insert c db row = refl
  audit_card_append_only app_readonly update c db row = refl
  audit_card_append_only app_readonly delete c db row = refl
  audit_card_append_only app_migrator cmd c db row = refl
