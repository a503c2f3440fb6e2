-- ===== src/Protocol.antt =====
-- internal/protocol: the wire formats of a device connection.
pub mod Coap
pub mod Particle
pub mod Framing
pub mod Session
pub mod Handshake
pub mod Tcp
