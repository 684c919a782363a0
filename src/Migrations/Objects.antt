-- ===== src/Migrations/Objects.antt =====
-- What the migrations build: tables with their columns and constraints, and the policies, triggers,
-- indexes and privileges that stand on them. An expression of SQL that is only stored is its text.
use as_baptist_api.Prelude.{none, ℕ, Bool, true, false, String, Option, List}

pub data ColumnType : Type 0 where
  uuid text citext integer bigint boolean date jsonb timestamptz text_array : ColumnType
  char numeric : ℕ → ColumnType
  numeric_scale : ℕ → ℕ → ColumnType
  enum : String → ColumnType

pub record Column : Type 0 where
  pub name : String
  pub type : ColumnType
  pub default : Option String
  pub nullable : Bool
  pub identity : Bool

pub record ForeignKey : Type 0 where
  pub columns : List String
  pub references : List String
  pub cascades : Bool

pub record Table : Type 0 where
  pub name : String
  pub columns : List Column
  pub checks : List (String × String)
  pub foreign_keys : List ForeignKey
  pub primary_key : List String
  pub uniques : List (List String)

pub record Index : Type 0 where
  pub name : String
  pub columns : List String
  pub unique : Bool
  pub condition : Option String

pub data Role : Type 0 where
  app_migrator app_api app_worker app_readonly : Role

pub data Command : Type 0 where
  select insert update delete : Command

-- The conditions of the policies: `tenant_id = app.current_tenant_id()`, the same of the table
-- `tenant` itself, `id = app.current_actor_id()`, a membership of the tenant, and a location of the
-- tenant that `app.can_read_location` lets through.
pub data Condition : Type 0 where
  own_tenant is_tenant is_caller own_membership readable_location : Condition

pub record Policy : Type 0 where
  pub name : String
  pub command : Command
  pub roles : List Role
  pub using_ : Option Condition
  pub check : Option Condition

pub record Trigger : Type 0 where
  pub name : String
  pub events : String
  pub function : String

abbrev pub same_role : Role → Role → Bool
same_role app_migrator app_migrator = true
same_role app_api app_api = true
same_role app_worker app_worker = true
same_role app_readonly app_readonly = true
same_role _ _ = false

abbrev pub same_command : Command → Command → Bool
same_command select select = true
same_command insert insert = true
same_command update update = true
same_command delete delete = true
same_command _ _ = false

-- A table in the schema.
pub record TableState : Type 0 where
  pub definition : Table
  pub secured : Bool
  pub forced : Bool
  pub policies : List Policy
  pub triggers : List Trigger
  pub indexes : List Index
  pub added_keys : List (String × ForeignKey)
  pub grants : List (Role × Command)

-- A function with the roles that may execute it, and a namespace with the roles that may use it.
pub record FunctionState : Type 0 where
  pub name : String
  pub executors : List Role

pub record Namespace : Type 0 where
  pub name : String
  pub users : List Role
  pub functions : List FunctionState

pub record Schema : Type 0 where
  pub extensions : List String
  pub roles : List Role
  pub types : List (String × List String)
  pub namespaces : List Namespace
  pub public_users : List Role
  pub defaults : List (Role × Command)
  pub tables : List TableState

-- The forms in which the migrations write these.
abbrev pub column : String → ColumnType → Option String → Bool → Column
column n t d b = record { name = n; type = t; default = d; nullable = b; identity = false }

abbrev pub identity_column : String → ColumnType → Column
identity_column n t = record {
  name = n;
  type = t;
  default = none;
  nullable = false;
  identity = true;
}

abbrev pub foreign_key : List String → List String → Bool → ForeignKey
foreign_key cs rs b = record { columns = cs; references = rs; cascades = b }

abbrev pub index : String → List String → Bool → Option String → Index
index n cs u w = record { name = n; columns = cs; unique = u; condition = w }

abbrev pub policy : String → Command → List Role → Option Condition → Option Condition → Policy
policy n c rs u w = record { name = n; command = c; roles = rs; using_ = u; check = w }

abbrev pub trigger : String → String → String → Trigger
trigger n e f = record { name = n; events = e; function = f }
