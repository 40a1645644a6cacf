-- ===== src/Migration/Simulation.antt =====
-- Commands as PostgreSQL runs them by the revision's catalog (alembic/versions), beside
-- Schema.Statements.
pub mod Stores
pub mod Writing
pub mod Writes
pub mod Referrers
pub mod Cascades
pub mod Restrictions
pub mod Erasure
pub mod Nothing
pub mod Deletes
pub mod Histories
