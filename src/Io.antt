-- ===== src/Io.antt =====
-- The socket loops of 2.3.1-coroutine/server_mulport_epoll.c.
pub mod Errno
pub mod Recv
pub mod RecvResult
pub mod Send
pub mod SendResult
pub mod Echo
pub mod RecvClose
pub mod Examples
