-- ===== src/Dns.antt =====
-- The asynchronous DNS client, 2.3.1-coroutine/async_dns_client_noblock.c.
pub mod Request
pub mod Tokens
pub mod Name
pub mod Response
pub mod Question
pub mod Layout
pub mod Decode
pub mod Answers
pub mod Limits
pub mod RoundTrip
pub mod Examples
pub mod Packets
pub mod Client
pub mod Sockets
pub mod Freed
pub mod ClientExamples
