-- ===== src/Ingestion.antt =====
-- Decision I/O ingestion: core/decision_io/ingestion.py, the repository of
-- storage/decision_io.py and `DecisionIoService` of daemon/decision_io.py.
pub mod Records
pub mod Store
pub mod Transaction
pub mod Observations
pub mod Sources
pub mod Reports
pub mod Service
pub mod Matching
pub mod Audits
pub mod Recording
pub mod Confirming
pub mod Compatibility
pub mod Steps
pub mod Effects
pub mod Retry
pub mod Growth
pub mod Final
pub mod Once
pub mod Removal
mod Tests
mod Decided
