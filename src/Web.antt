-- ===== src/Web.antt =====
-- The web server of test8/reactor.cpp and test8/webserver.cpp.
pub mod Connection
pub mod Response
pub mod Reactor
pub mod Phases
pub mod Filling
pub mod Readiness
pub mod Writing
pub mod Sends
pub mod Turns
pub mod Serving
pub mod Requests
pub mod Reuse
pub mod Examples
