-- ===== src/External.antt =====
-- core/access/external.py with its records (core/domain/models.py) and its repositories
-- (storage-sqlite/repositories.py): service identities, their scopes and their API keys.
mod Records
mod Store
mod Service
pub mod ApiKey
pub mod Scopes
pub mod Admission
pub mod Revocation
pub mod Issue
mod Tests
