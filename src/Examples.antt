-- ===== src/Examples.antt =====
-- The theorems at concrete inputs, and runs of the models.
mod Protocol
mod Firmware
mod Signals
mod Connections
mod Records
mod Catalog
mod Events
mod Webhooks
mod Auth
