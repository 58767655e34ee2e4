-- ===== src/Server.antt =====
-- The epoll server of 2.3.1-coroutine/server_mulport_epoll.c: its state, set-up and event handlers.
pub mod State
pub mod Handler
pub mod Loop
pub mod Accounts
pub mod Race
pub mod Replies
pub mod Examples
