-- ===== src/Commands.antt =====
-- The commands that are sent to a device: their identifiers and their payloads
-- (libnitrokey/command_id.h, command.h, stick10_commands.h, stick10_commands_0.8.h and
-- stick20_commands.h).
pub mod Ids
pub mod Names
pub mod Layout
pub mod Stick10
pub mod Stick10_08
pub mod Stick20
pub mod Command
pub mod Fits
pub mod Typed
pub mod Responses
pub mod Dissect
