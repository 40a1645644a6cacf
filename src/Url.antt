-- ===== src/Url.antt =====
-- api/db/url.py, and what it uses of Python's `urllib.parse`.
pub mod Query
pub mod Split
pub mod Build
