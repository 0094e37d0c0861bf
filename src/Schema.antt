-- ===== src/Schema.antt =====
-- core/src/schema.rs: output contracts.
pub mod Repair
pub mod Refs
pub mod Check
