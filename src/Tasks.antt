-- ===== src/Tasks.antt =====
-- The thread pool of test3/threadpool.h.
pub mod Pool
pub mod Carried
pub mod Safety
pub mod Stop
pub mod Examples
