-- ===== src/Webhooks.antt =====
-- internal/webhooks: outbound requests for published events.
pub mod Models
pub mod Backoff
pub mod Template
pub mod Service
pub mod Delivery
pub mod Attempted
pub mod Delivered
