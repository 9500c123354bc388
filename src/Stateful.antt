-- ===== src/Stateful.antt =====
-- Workflows (apiverity/stateful).
pub mod Variables
pub mod Graph
pub mod Cycle
