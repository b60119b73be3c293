-- ===== src/Pairing.antt =====
-- core/access/pairing.py with its records (core/domain/models.py) and its repositories
-- (storage-sqlite/repositories.py).
mod Records
mod Service
pub mod Credential
pub mod Claim
pub mod Device
pub mod Login
mod Tests
pub use Records.*
pub use Service.*
