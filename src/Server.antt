-- ===== src/Server.antt =====
-- The self-hosted server of apiverity/server: its tables and what it decides by them.
pub mod Rows
pub mod Audit
pub mod Export
pub mod Freeze
pub mod Runs
pub mod Jobs
pub mod Decision
pub mod Auth
