-- ===== src/Wire.antt =====
-- Bytes, bits and identities on the wire.
pub mod Bytes
pub mod Packed
pub mod Reader
pub mod BitWriter
pub mod BitReader
pub mod Packet
pub mod PacketHistory
pub mod ValuesOrder
pub mod Batch
