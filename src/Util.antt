-- ===== src/Util.antt =====
-- util/storage.rs: what the server does with events on top of a storage.
pub mod Sender
pub mod NewEvent
pub mod AddEvent
pub mod TestUsers
