-- ===== src/Domain.antt =====
-- Records of core/domain/models.py that several components share.
pub mod Sources
pub mod Decisions
pub mod Evidence
