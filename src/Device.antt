-- ===== src/Device.antt =====
-- device.cc and libnitrokey/device.h.
pub mod Model
pub mod Hid
pub mod State
pub mod Heap
pub mod Enumeration
pub mod Link
pub mod Texts
