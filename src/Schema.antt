-- ===== src/Schema.antt =====
-- The ten tables (api/v1/models, alembic/versions): their rows, their constraints, and the database
-- that a statement changes.
pub mod Sql
pub mod Statuses
pub mod Rows
pub mod Checks
pub mod Table
pub mod Database
pub mod Constraints
pub mod References
pub mod Statements
pub mod Fixtures
mod Tests
