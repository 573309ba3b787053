-- ===== src/Protocol.antt =====
-- The package protocol: bytes on the wire, frames, messages, body compression, method names.
pub mod Bytes
pub mod Frame
pub mod Message
pub mod Compress
pub mod Mapper
pub mod Tests
