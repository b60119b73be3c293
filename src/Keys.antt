-- ===== src/Keys.antt =====
-- core/keys/aliases.py with its record (core/domain/models.py): the canonical keys that target keys
-- are grouped under, and the repositories of keys, storage/key_aliases.py and
-- storage/key_metadata.py.
pub mod Records
pub mod Aliases
pub mod Follow
pub mod Fuel
pub mod Collected
pub mod Canonical
pub mod Store
pub mod Identities
pub mod Depth
pub mod Entries
pub mod Rows
pub mod Unique
pub mod Acyclic
pub mod Upsert
pub mod Supported
pub mod Closure
pub mod Passes
pub mod Prune
pub mod Evidence
pub mod Labels
pub mod Naming
pub mod Setting
pub mod Ownership
pub mod Review
pub mod Normalize
pub mod Propose
pub mod History
mod Tests
mod Scenarios
