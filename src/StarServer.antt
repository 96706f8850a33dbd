-- ===== src/StarServer.antt =====
-- internal/star/starserver: the parts of the server around the tunnel.
pub mod ConnectTable
pub mod Runtime
pub mod Proxy
