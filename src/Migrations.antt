-- ===== src/Migrations.antt =====
-- The schema that `migrations/versions` builds: the statements of each migration as data, what a
-- statement does to the schema, and what the schema of a deployed service allows.
mod Objects
mod Ddl
mod Spine
mod Access
mod Places
mod Spending
mod Approving
mod Chain
mod Permits
mod Needs
mod Accepts
pub mod Reversal
pub mod Runs
pub mod Agreement
pub mod Isolated
unfoldable pub use Objects.*
unfoldable pub use Ddl.*
unfoldable pub use Spine.*
unfoldable pub use Access.*
unfoldable pub use Places.*
unfoldable pub use Spending.*
unfoldable pub use Approving.*
unfoldable pub use Chain.*
unfoldable pub use Permits.*
unfoldable pub use Accepts.*
