-- ===== src/Manager.antt =====
-- `NitrokeyManager` (NitrokeyManager.cc): the operations that a client calls, on the connected device
-- and on the connections.
pub mod Interface
pub mod State
pub mod Status
pub mod Authorization
pub mod Slots
pub mod Writing
pub mod Pins
pub mod PasswordSafe
pub mod Storage
pub mod Connecting
pub mod Connection
pub mod ById
pub mod Ownership
pub mod SlotData
pub mod Texts
