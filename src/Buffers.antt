-- ===== src/Buffers.antt =====
-- The buffers of a connection, `SendQueue` and `RecvQueue` of crates/dpdk-net-core/src/tcp_conn.rs.
pub mod Send
pub mod Recv
pub mod Room
