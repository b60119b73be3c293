-- ===== src/Delegation.antt =====
-- core/delegation/policy.py with its records (core/domain/models.py) and its repositories
-- (storage-sqlite/repositories.py).
mod Records
mod Store
mod Engine
pub mod Laws
pub mod Steps
pub mod Fate
pub mod Trace
pub mod Rules
pub mod Runs
pub mod Policies
pub mod Effects
pub mod Invariant
pub mod Outcomes
pub mod Verdicts
pub mod Submit
pub mod Once
pub mod Approval
pub mod Replay
mod Tests
pub use Records.*
pub use Store.*
pub use Engine.*
