-- ===== src/Events.antt =====
-- internal/events: the events of devices, their subscribers and sinks.
pub mod Models
pub mod Broker
pub mod Service
pub mod Published
