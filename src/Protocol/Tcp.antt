-- ===== src/Protocol/Tcp.antt =====
-- internal/protocol/tcp: the server that devices connect to.
pub mod Registry
pub mod MessageIds
