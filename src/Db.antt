-- ===== src/Db.antt =====
-- The database: the rows of the tables, statements and transactions, and the tenant context.
mod Rows
mod Statements
mod Rls
mod Context
pub mod Isolation
pub mod Reuse
pub mod Sequence
pub mod Frame
unfoldable pub use Rows.*
unfoldable pub use Statements.*
unfoldable pub use Rls.*
unfoldable pub use Context.*
