-- ===== src/Room.antt =====
-- src/application: the meeting room and its users.
pub mod User
pub mod Meeting
