-- ===== src/DecisionIo.antt =====
-- core/decision_io/policy.py and the provenance records of core/domain/provenance.py: what an
-- external adapter may report, and what the daemon makes of it.
pub mod Provenance
pub mod Observations
pub mod Policy
pub mod Eligibility
pub mod Acceptance
pub mod Classification
mod Tests
