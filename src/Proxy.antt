-- ===== src/Proxy.antt =====
-- src/proxy: reading HTTP from a connection, forwarding bodies, and what is sent upstream.
pub mod Stream
pub mod Message
pub mod Http
pub mod Upstream
pub mod Connect
pub mod Tests
