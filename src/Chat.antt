-- ===== src/Chat.antt =====
-- The chat room of 2.2.3-udp-kcp-quic: the sessions, the server and the client that wrap the kcp
-- library, and the room that chat_server.cc makes of them.
pub mod Library
pub mod Session
pub mod Server
pub mod Sending
pub mod Room
pub mod Walk
pub mod Receive
pub mod Turns
pub mod Ends
pub mod Serve
pub mod Lines
pub mod Broadcast
pub mod Datagram
pub mod Timeouts
pub mod Farewell
pub mod Join
pub mod Client
pub mod Cut
pub mod Showing
pub mod Small
pub mod Examples
pub mod Oversized
