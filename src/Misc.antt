-- ===== src/Misc.antt =====
-- misc.cc and libnitrokey/misc.h: checksums, hex strings, and copies into fixed fields; and the
-- decimal text of numbers, which the standard library writes.
pub mod Crc
pub mod Hex
pub mod Hexdump
pub mod Fields
pub mod Decimal
pub mod Stream
