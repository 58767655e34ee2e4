-- ===== src/Coroutine.antt =====
-- The coroutines of 2.3.1-coroutine/ucontext-backup.c.
pub mod Schedule
pub mod RoundRobin
pub mod Examples
