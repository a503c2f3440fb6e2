-- ===== src/Devices.antt =====
-- internal/devices: claims, presence and live commands.
pub mod Models
pub mod Service
