-- ===== src/Jobs.antt =====
-- The durable job queue: the repository (storage-sqlite/repositories.py), its records
-- (core/domain/models.py) and the worker (apps/daemon/jobs.py).
mod Store
mod Worker
pub mod Claims
pub mod Budget
mod Rows
pub mod Lease
pub mod Exclusion
pub mod Backoff
mod Tests
