-- ===== src/Cost.antt =====
-- The spend functions of `migrations/versions/0004_audit_and_cost.py`: `cost.month_spend` and
-- `cost.assert_budget`, and the tables they read.
mod Budget
unfoldable pub use Budget.*
