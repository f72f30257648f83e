-- ===== src/Utils.antt =====
-- The helpers under src/utils that the protocol code is written over.
pub mod Base64
pub mod ByteStream
pub mod DataBuffer
