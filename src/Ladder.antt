-- ===== src/Ladder.antt =====
-- The approval ladder, `app/services/approval_ladder.py`: preview, approve, execute.
mod Types
pub mod Agreement
pub mod Checks
pub mod Approve
pub mod CarryOut
pub mod Outcome
pub mod Completes
pub mod Guarded
pub mod Budgeted
pub mod Isolated
pub mod Misreport
pub mod Quote
pub mod Recorded
pub mod Replay
pub mod Concurrent
mod Gates
mod Preview
mod Execute
unfoldable pub use Types.*
unfoldable pub use Gates.*
unfoldable pub use Preview.*
unfoldable pub use Execute.*
