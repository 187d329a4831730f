-- ===== src/Hub.antt =====
-- src/hub.rs: the ring of events that removes duplicates, and the ring of encoded frames that a
-- client resumes from.
pub mod Events
pub mod Frames
mod Examples
