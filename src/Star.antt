-- ===== src/Star.antt =====
-- protocol/star: the framed control channel between a node and its clients.
pub mod MsgType
pub mod Message
pub mod Session
pub mod Handshake
pub mod Window
pub mod StreamHub
pub mod CtrlClient
mod Tests
