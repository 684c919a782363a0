-- ===== src/Ladder/Types.antt =====
-- The values of `app/services/approval_ladder.py`, and what it takes from outside.
use as_baptist_api.Prelude.{ℕ, Bool, String, Option, List}
use as_baptist_api.Prelude.Int.{ℤ}
use as_baptist_api.Db.{Db, Date, Result, ApprovalStatus}

-- Printing and JSON are Python's and PostgreSQL's: `f"{x:.2f}"`, `str` of a decimal and of a UUID,
-- `json.dumps`, and what PostgreSQL gives back of a `json.dumps(result, default=str)` that was
-- stored as `jsonb`.
pub record Codec : Type 0 where
  pub two_places : ℤ → String
  pub decimal_text : ℤ → String
  pub uuid_text : ℕ → String
  pub count_text : ℤ → String
  pub dumps_list : List String → String
  pub dumps_object : List (String × String) → String
  pub dumps_bool : Bool → String
  pub stored : String → String

-- What one call reads of its surroundings: Python's clock, PostgreSQL's `now()` and `current_date`,
-- and the next `gen_random_uuid()`.
pub record Env : Type 0 where
  pub codec : Codec
  pub now_utc : ℕ
  pub now : ℕ
  pub today : Date
  pub new_id : ℕ

-- `CostUnit`.
pub record CostUnit : Type 0 where
  pub label : String
  pub count : ℤ
  pub unit_cost_usd : ℤ
  pub subtotal_usd : ℤ

-- A gate of a preview.
pub record Gate : Type 0 where
  pub id : String
  pub passed : Bool
  pub detail : String

-- The keyword arguments of `create_preview`; `params` is the dumped dictionary.
pub record PreviewRequest : Type 0 where
  pub tenant_id : ℕ
  pub location_id : Option ℕ
  pub operation : String
  pub requested_by : ℕ
  pub params : String
  pub units : List CostUnit
  pub estimated_cost_usd : ℤ
  pub provider_balance_usd : Option ℤ

pub record PreviewResponse : Type 0 where
  pub preview_id : ℕ
  pub operation : String
  pub expires_at : ℕ
  pub units : List (List (String × String))
  pub estimated_cost_usd : ℤ
  pub gates : List Gate
  pub passes : Bool

-- The keyword arguments of `execute`, but for `dispatch`.
pub record ExecuteRequest : Type 0 where
  pub tenant_id : ℕ
  pub location_id : Option ℕ
  pub operation : String
  pub approved_by : ℕ
  pub preview_id : ℕ
  pub idempotency_key : String
  pub reprice_cost_usd : ℤ
  pub provider_balance_usd : Option ℤ

pub record ExecuteResponse : Type 0 where
  pub approval_id : ℕ
  pub status : ApprovalStatus
  pub actual_cost_usd : Option ℤ
  pub result : Option String

-- `_ExistingApproval`.
pub record ExistingApproval : Type 0 where
  pub cost_preview_id : Option ℕ
  pub response : ExecuteResponse

-- `DispatchFn`: the caller's work, which may use the session's tables and may raise.
abbrev pub Dispatch : Type 0
Dispatch = Db → Result String × Db
