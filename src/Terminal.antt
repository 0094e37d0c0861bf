-- ===== src/Terminal.antt =====
-- core/src/pty: what stands between an agent's terminal and its readers.
pub mod Stripper
pub mod Coalesce
pub mod Queue
