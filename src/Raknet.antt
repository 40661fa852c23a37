-- ===== src/Raknet.antt =====
-- src/raknet: the wire format of Raknet packets.
pub mod Endian
pub mod Bytes
pub mod Buf
pub mod Utf8
pub mod Decimal
pub mod Motd
pub mod Ping
pub mod Datatypes
pub mod Version
pub mod Message
pub mod Frame
