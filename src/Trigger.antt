-- ===== src/Trigger.antt =====
-- core/src/trigger.rs: the hub of triggers, their payloads, and the watch of a kickoff.
pub mod Hub
pub mod Payload
pub mod Outcome
pub mod Watch
