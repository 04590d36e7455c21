-- ===== src/Tests.antt =====
-- The theorems at concrete inputs, and runs of the definitions.
mod Data
mod Devices
mod Managers
mod Connections
mod Texts
