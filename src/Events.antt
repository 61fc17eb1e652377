-- ===== src/Events.antt =====
-- events/: the contents of room events, persistent data units (PDUs) and their redaction.
pub mod Room
pub mod Content
pub mod Pdu
pub mod Redaction
pub mod Serialized
pub mod MembershipText
pub mod Levels
mod Tests
