-- ===== src/Security.antt =====
-- api/core/security.py: the vault for bank account numbers, and passwords.
pub mod Base64
pub mod Utf8
pub mod Vault
pub mod Passwords
pub mod Hashes
mod Tests
