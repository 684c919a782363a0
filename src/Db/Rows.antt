-- ===== src/Db/Rows.antt =====
-- The tables of `app/models/*.py`, a record for a row of each. Identifiers are numbers (a UUID, or
-- the identity column of `audit_card` and `cost_ledger`); a money column `Numeric(12, 4)` or
-- `Numeric(12, 2)` holds a whole number of ten-thousandths of a dollar; a time stamp counts
-- microseconds; a JSONB payload is kept as its text.
use as_baptist_api.Prelude.{ℕ, String, Bool, Option, none, some, List, str_eq, if◌then◌else◌}
use as_baptist_api.Prelude.Int.{ℤ}

-- A calendar date: the number of its month (12 for each year) and the day in the month, from 1.
pub record Date : Type 0 where
  pub month : ℕ
  pub day : ℕ

-- `ActorRole`, the enumeration `actor_role`.
pub data ActorRole : Type 0 where
  as_admin as_staff client_admin client_user system : ActorRole

-- `text::actor_role`: `none` where the cast fails.
unfoldable pub actor_role : String → Option ActorRole
actor_role t =
    if str_eq t "as_admin"
    then some as_admin
    else if str_eq t "as_staff"
    then some as_staff
    else if str_eq t "client_admin"
    then some client_admin
    else if str_eq t "client_user"
    then some client_user
    else if str_eq t "system"
    then some system
    else none

-- `DataSource`, the enumeration `data_source`.
pub data DataSource : Type 0 where
  searchatlas dataforseo serper brightlocal synthetic computed client_verified : DataSource

-- `DataSource(text)`: `none` where it raises.
unfoldable pub data_source : String → Option DataSource
data_source t =
    if str_eq t "searchatlas"
    then some searchatlas
    else if str_eq t "dataforseo"
    then some dataforseo
    else if str_eq t "serper"
    then some serper
    else if str_eq t "brightlocal"
    then some brightlocal
    else if str_eq t "synthetic"
    then some synthetic
    else if str_eq t "computed"
    then some computed
    else if str_eq t "client_verified"
    then some client_verified
    else none

pub record Tenant : Type 0 where
  pub id : ℕ
  pub slug : String
  pub name : String
  pub tier : String
  pub status : String
  pub archived_at : Option ℕ
  pub created_at : ℕ
  pub updated_at : ℕ

pub record UserProfile : Type 0 where
  pub id : ℕ
  pub email : String
  pub full_name : Option String
  pub avatar_url : Option String
  pub last_active_at : Option ℕ
  pub created_at : ℕ
  pub updated_at : ℕ

pub record Membership : Type 0 where
  pub id : ℕ
  pub tenant_id : ℕ
  pub user_id : ℕ
  pub role : ActorRole
  pub status : String
  pub invited_by : Option ℕ
  pub invite_token : Option String
  pub invite_expires_at : Option ℕ
  pub joined_at : Option ℕ
  pub created_at : ℕ
  pub updated_at : ℕ

pub record MembershipLocation : Type 0 where
  pub membership_id : ℕ
  pub location_id : ℕ

-- `lat`, `lng` and `rating_value` count the last decimal place of their column.
pub record Location : Type 0 where
  pub id : ℕ
  pub tenant_id : ℕ
  pub slug : String
  pub name : String
  pub display_name : Option String
  pub fleet : Option String
  pub listing_type : String
  pub facility_type : String
  pub address : String
  pub city : String
  pub state : String
  pub zip : String
  pub lat : Option ℤ
  pub lng : Option ℤ
  pub place_id : Option String
  pub cid : Option String
  pub phone : Option String
  pub website : Option String
  pub domain : Option String
  pub primary_category : Option String
  pub additional_categories : List String
  pub is_claimed : Option Bool
  pub is_verified : Option Bool
  pub total_photos : Option ℤ
  pub rating_value : Option ℤ
  pub rating_votes : Option ℤ
  pub rating_distribution : Option String
  pub work_time : Option String
  pub attributes : Option String
  pub place_topics : Option String
  pub searchatlas_business_id : Option ℤ
  pub searchatlas_audit_report_id : Option ℤ
  pub status : String
  pub enriched : Bool
  pub source : DataSource
  pub fetched_at : Option ℕ
  pub created_at : ℕ
  pub updated_at : ℕ

pub record CostLedger : Type 0 where
  pub id : ℕ
  pub tenant_id : ℕ
  pub location_id : Option ℕ
  pub occurred_at : ℕ
  pub billing_date : Date
  pub provider : String
  pub operation : String
  pub unit : String
  pub units : ℕ
  pub unit_cost_usd : ℤ
  pub cost_usd : ℤ
  pub billing : String
  pub run_id : Option ℕ
  pub approval_id : Option ℕ
  pub scope : String
  pub description : Option String
  pub source : DataSource

pub record CostBudget : Type 0 where
  pub id : ℕ
  pub tenant_id : ℕ
  pub period_month : Date
  pub monthly_cap_usd : ℤ
  pub per_run_cap_usd : ℤ
  pub balance_floor_usd : ℤ
  pub hard_stop : Bool
  pub created_at : ℕ
  pub updated_at : ℕ

pub record CostPreview : Type 0 where
  pub id : ℕ
  pub tenant_id : ℕ
  pub location_id : Option ℕ
  pub operation : String
  pub requested_by : ℕ
  pub params : String
  pub units : String
  pub estimated_cost_usd : ℤ
  pub gates : String
  pub passes : Bool
  pub created_at : ℕ
  pub expires_at : ℕ

-- The values that `approval_status_check` admits.
pub data ApprovalStatus : Type 0 where
  approved executing executed failed expired : ApprovalStatus

pub record Approval : Type 0 where
  pub id : ℕ
  pub tenant_id : ℕ
  pub location_id : Option ℕ
  pub cost_preview_id : Option ℕ
  pub operation : String
  pub approved_by : ℕ
  pub approved_at : ℕ
  pub idempotency_key : String
  pub status : ApprovalStatus
  pub executed_at : Option ℕ
  pub actual_cost_usd : Option ℤ
  pub result : Option String
  pub error : Option String

pub record AuditCard : Type 0 where
  pub id : ℕ
  pub tenant_id : ℕ
  pub location_id : Option ℕ
  pub occurred_at : ℕ
  pub actor_id : Option ℕ
  pub actor_label : String
  pub actor_role : ActorRole
  pub verb : String
  pub action : String
  pub resource_type : String
  pub resource_id : Option String
  pub approval_id : Option ℕ
  pub request_id : Option String
  pub detail : Option String
  pub simulated : Bool
  pub source : DataSource

-- The tables, and the next number of `audit_card`'s identity column.
pub record Db : Type 0 where
  pub tenants : List Tenant
  pub users : List UserProfile
  pub memberships : List Membership
  pub membership_locations : List MembershipLocation
  pub locations : List Location
  pub ledger : List CostLedger
  pub budgets : List CostBudget
  pub previews : List CostPreview
  pub approvals : List Approval
  pub cards : List AuditCard
  pub next_card : ℕ
