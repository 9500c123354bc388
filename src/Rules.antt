-- ===== src/Rules.antt =====
-- The parts of apiverity/rules.
pub mod Catalog
pub mod Wording
pub mod Constraints
pub mod Breaking
pub mod Semver
pub mod Suppressions
pub mod Budget
