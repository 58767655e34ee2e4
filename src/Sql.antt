-- ===== src/Sql.antt =====
-- The connection pool of test4/connectionpool.h.
pub mod Pool
pub mod Handles
pub mod Examples
