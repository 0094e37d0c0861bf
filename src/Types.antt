-- ===== src/Types.antt =====
-- The wire types of core/src/types: identifiers, messages, events, agents and workflow configuration.
pub mod Ids
pub mod Net
pub mod Json
pub mod Message
pub mod Config
pub mod Event
