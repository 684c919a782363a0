-- ===== src/Security.antt =====
-- Authentication, `app/core/security.py`, and the request dependencies, `app/deps.py`.
mod Claims
mod Jwks
mod Fetching
mod Verifier
mod Deps
pub mod Authentic
pub mod Fetches
pub mod Published
pub mod Seam
unfoldable pub use Claims.*
unfoldable pub use Jwks.*
unfoldable pub use Fetching.*
unfoldable pub use Verifier.*
unfoldable pub use Deps.*
