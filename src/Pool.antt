-- ===== src/Pool.antt =====
-- The thread pool of 2.3.1-coroutine/server_mulport_epoll.c.
pub mod Links
pub mod Chain
pub mod Init
pub mod Workers
pub mod Safety
pub mod Progress
pub mod Examples
