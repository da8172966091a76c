-- ===== src/Persistence.antt =====
-- The in-memory stores: persistence/.
pub mod PlanStore
pub mod Checkpoints
pub mod UsageLedger
pub mod Resume
pub mod ArtifactMeta
pub mod ArtifactStore
