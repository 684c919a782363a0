-- ===== src/Examples.antt =====
-- Small concrete inputs, and the theorems at them.
pub mod World
mod Errors
mod Sessions
mod Execution
mod Access
mod Progress
mod Overlap
mod Histories
mod Places
mod Changes
mod Schemas
mod Tags
mod Deployment
mod Headers
mod Boundaries
