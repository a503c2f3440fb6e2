-- ===== src/Firmware.antt =====
-- internal/firmware: firmware metadata, selection and over-the-air flash jobs.
pub mod Models
pub mod Effects
pub mod Reliable
pub mod Job
pub mod Manifest
pub mod Ota
pub mod Signals
pub mod Catalog
