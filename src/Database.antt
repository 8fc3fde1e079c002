-- ===== src/Database.antt =====
-- The PostgreSQL database as the sqlc package `dbgen` sees it. A statement reads the value of
-- `now()` and the tables, and returns a reply and the tables; a statement that fails changes
-- nothing. `gen_random_uuid()` is a counter.
mod Rows
mod Sql
pub mod Catalog
pub mod Payments
pub mod Subscriptions
pub mod Quotas
pub mod Renewals
pub mod Unchanged
pub mod Current
pub mod Users
pub mod Registrations
pub mod Sessions
pub mod Generations
pub mod Progress
pub use Rows.*
unfoldable pub use Sql.*
