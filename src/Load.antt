-- ===== src/Load.antt =====
-- The clients that load the epoll server: test7/mul_port_client_epoll.c, its copy in test8,
-- and the variant in test9.
pub mod Client
pub mod Connections
pub mod Examples
