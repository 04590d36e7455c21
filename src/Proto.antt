-- ===== src/Proto.antt =====
-- libnitrokey/device_proto.h: the packets and the transaction that exchanges them.
pub mod Packet
pub mod Transaction
pub mod Queries
pub mod Dissect
