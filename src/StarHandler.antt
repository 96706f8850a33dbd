-- ===== src/StarHandler.antt =====
-- internal/handler/star: the server side of the star tunnel.
pub mod StreamTable
pub mod CtrlHub
pub mod CtrlProxy
pub mod Tunnel
mod Tests
