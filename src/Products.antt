-- ===== src/Products.antt =====
-- internal/products: products and their devices.
pub mod Models
pub mod Slugs
pub mod Service
pub mod Members
