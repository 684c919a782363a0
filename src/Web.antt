-- ===== src/Web.antt =====
-- What the HTTP routes share: `app/core/etag.py`, `app/core/idempotency.py`, and the request ids of
-- `app/main.py`.
mod Etag
mod Headers
mod Responses
mod Middleware
pub mod Correlated
pub mod Accepted
pub mod Tenants
pub mod Conditional
unfoldable pub use Etag.*
unfoldable pub use Headers.*
unfoldable pub use Responses.*
unfoldable pub use Middleware.*
