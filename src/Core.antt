-- ===== src/Core.antt =====
-- The parts of apiverity/core that stand beside the model.
pub mod Artifact
