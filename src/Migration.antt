-- ===== src/Migration.antt =====
-- The initial revision (alembic/versions/07f7b6151968_initial_schema.py): the changes to PostgreSQL's
-- catalog that it makes and takes back, and what the catalog then asks of a row.
pub mod Catalog
pub mod Conditions
pub mod Operations
pub mod Revision
pub mod Enforcement
pub mod Cells
pub mod Writes
pub mod Refinement
pub mod Execution
pub mod Commands
pub mod Simulation
pub mod Metadata
mod Tests
