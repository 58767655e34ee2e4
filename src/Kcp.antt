-- ===== src/Kcp.antt =====
-- The KCP echo server and the clock of 2.2.3-udp-kcp-quic/server.c.
pub mod Clock
pub mod Library
pub mod Serve
pub mod Echo
pub mod Examples
