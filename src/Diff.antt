-- ===== src/Diff.antt =====
-- The contract differ: apiverity/diff/engine.py.
pub mod Kind
pub mod Change
pub mod Ids
pub mod Enum
pub mod Site
pub mod Facts
pub mod Members
pub mod Protobuf
pub mod Keywords
pub mod Schema
pub mod Media
pub mod Responses
pub mod Parameters
pub mod Tools
pub mod Operations
pub mod Run
