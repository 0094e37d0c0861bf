-- ===== src/Api.antt =====
-- core/src/api: the event stream, and the guard of the HTTP interface.
pub mod Sse
pub mod Auth
