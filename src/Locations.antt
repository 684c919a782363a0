-- ===== src/Locations.antt =====
-- The locations of a tenant: `app/repositories/location.py`, `app/services/location.py`,
-- `app/schemas/location.py` and `app/routers/locations.py`.
mod Listing
mod Creating
mod Patching
mod Routes
pub mod Patched
pub mod Served
pub mod Added
pub mod Pages
unfoldable pub use Listing.*
unfoldable pub use Creating.*
unfoldable pub use Patching.*
unfoldable pub use Routes.*
