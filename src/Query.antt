-- ===== src/Query.antt =====
-- The blocking DNS client of test5/dnstest.cpp: the request that it builds and the addresses that it
-- prints of a response.
pub mod Message
pub mod Answers
pub mod Names
pub mod Bounds
pub mod Printed
pub mod Response
pub mod Client
pub mod Examples
