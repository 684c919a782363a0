-- ===== src/Examples/World.antt =====
-- A tenant with a budget, a user and one preview, and concrete outside functions.
use text.Mathlib.TextLemmas.{cons≢nil}
use as_baptist_api.Prelude.Int.{pos}
use as_baptist_api.Db.{ok, Caller}
use as_baptist_api.Db.{CostBudget}
use as_baptist_api.Db.{CostPreview}
use as_baptist_api.Db.{Db}
use as_baptist_api.Db.{Tenant}
use as_baptist_api.Db.{UserProfile}
use as_baptist_api.Db.{UuidText}
use as_baptist_api.Ladder.{Codec}
use as_baptist_api.Ladder.{Dispatch}
use as_baptist_api.Ladder.{Env}
use as_baptist_api.Ladder.{ExecuteRequest}
use as_baptist_api.Prelude.{
  arith, ℕ, zero, suc, String, ◌≡◌, refl, ◌≢◌, true, Option, none, some, [], ◌∷◌,
}

-- Unary text for identifiers: it is never empty and it reads back.
unfoldable pub unary : ℕ → String
unary zero = "x"
unary (suc n) = String.◌∷◌ "x" (unary n)

unfoldable pub length_of : String → Option ℕ
length_of String.[] = none
length_of (String.◌∷◌ c s) = elim (length_of s) [ none ↦ some 0 | some n ↦ some (suc n) ]

pub length_of-unary : (n : ℕ) → length_of (unary n) ≡ some n
unfolding length_of unary
length_of-unary zero = refl
length_of-unary (suc n) = ground (arith, length_of-unary n)

pub unary-ne-empty : (n : ℕ) → unary n ≢ ""
unfolding unary
unary-ne-empty zero h = cons≢nil h
unary-ne-empty (suc n) h = cons≢nil h

abbrev pub unary_text : UuidText
unary_text = record {
  to_text = unary;
  of_text = length_of;
  of_text-to_text = length_of-unary;
  to_text-ne-empty = unary-ne-empty;
}

-- Printing and JSON, with every text replaced by a constant one.
abbrev pub codec : Codec
codec = record {
  two_places = λ x. "0.00";
  decimal_text = λ x. "0";
  uuid_text = λ n. "id";
  count_text = λ x. "1";
  dumps_list = λ xs. "[]";
  dumps_object = λ xs. "{}";
  dumps_bool = λ b. "true";
  stored = λ x. x;
}

abbrev pub tenant : Tenant
tenant = record {
  id = 1;
  slug = "t";
  name = "T";
  tier = "agency_client";
  status = "active";
  archived_at = none;
  created_at = 0;
  updated_at = 0;
}

abbrev pub user : UserProfile
user = record {
  id = 7;
  email = "u@example.test";
  full_name = some "U";
  avatar_url = none;
  last_active_at = none;
  created_at = 0;
  updated_at = 0;
}

-- Caps of 1000 and 100 dollars, in ten-thousandths.
abbrev pub budget : CostBudget
budget = record {
  id = 1;
  tenant_id = 1;
  period_month = record { month = 24320; day = 1 };
  monthly_cap_usd = pos 10000000;
  per_run_cap_usd = pos 1000000;
  balance_floor_usd = pos 0;
  hard_stop = true;
  created_at = 0;
  updated_at = 0;
}

-- A preview of 10 dollars, made at time 0.
abbrev pub quoted : CostPreview
quoted = record {
  id = 5;
  tenant_id = 1;
  location_id = none;
  operation = "scan";
  requested_by = 7;
  params = "{}";
  units = "[]";
  estimated_cost_usd = pos 100000;
  gates = "[]";
  passes = true;
  created_at = 0;
  expires_at = 900000000;
}

abbrev pub world : Db
world = record {
  tenants = tenant ∷ [];
  users = user ∷ [];
  memberships = [];
  membership_locations = [];
  locations = [];
  ledger = [];
  budgets = budget ∷ [];
  previews = quoted ∷ [];
  approvals = [];
  cards = [];
  next_card = 1;
}

abbrev pub env : Env
env = record {
  codec = codec;
  now_utc = 1000;
  now = 1000;
  today = record { month = 24320; day = 3 };
  new_id = 40;
}

abbrev pub operator_caller : Caller
operator_caller = record { tenant = some 1; actor = some 7; role = "as_admin"; request_id = none }

abbrev pub purchase : ExecuteRequest
purchase = record {
  tenant_id = 1;
  location_id = none;
  operation = "scan";
  approved_by = 7;
  preview_id = 5;
  idempotency_key = "k";
  reprice_cost_usd = pos 105000;
  provider_balance_usd = none;
}

abbrev pub queue : Dispatch
queue db = (ok "queued", db)
