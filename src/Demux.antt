-- ===== src/Demux.antt =====
-- The servers of test8/tcpserver.cpp, which wait for their clients with `poll` and with `epoll`.
pub mod Epoll
pub mod Poll
pub mod Leaving
pub mod Examples
