-- ===== src/Fuzz.antt =====
-- Fuzzing, of apiverity/fuzz.
pub mod Minimize
