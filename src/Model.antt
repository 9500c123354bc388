-- ===== src/Model.antt =====
-- The protocol-neutral contract that every format is compiled into: apiverity/core/model.py.
pub mod Value
pub mod Schema
pub mod Operation
pub mod Repr
pub mod Finding
