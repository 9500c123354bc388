-- ===== src/Runtime.antt =====
-- The parts of apiverity/runtime.
pub mod Monitor
