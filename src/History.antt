-- ===== src/History.antt =====
-- Histories of whole requests: quotes, executions, added and changed locations, each in a tenant context of
-- its own, as `app/deps.py` opens one for each request.
pub mod Approvals
pub mod Sound
pub mod Served
pub mod Steps
pub mod Kept
pub mod Patches
pub mod Invariant
pub mod Receipts
pub mod Lookup
pub mod Strangers
pub mod Refines
