-- ===== src/Protocol.antt =====
-- The wire protocol: include/liteim/protocol and src/protocol.
pub mod Bytes
pub mod ByteOrder
pub mod MessageType
pub mod Tlv
pub mod Packet
pub mod FrameDecoder
pub mod TlvCodec
mod Tests
