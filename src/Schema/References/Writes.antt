-- ===== src/Schema/References/Writes.antt =====
-- Referential integrity under INSERT and UPDATE (the foreign keys of api/v1/models).
mod Inserts
mod Updates
pub use Inserts.*
pub use Updates.*
