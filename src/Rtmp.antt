-- ===== src/Rtmp.antt =====
-- The chunk layer of src/net/rtmp: messages cut into chunks by the sender and put together again by
-- the receiver.
pub mod Chunk
pub mod Session
pub mod Writer
pub mod RoundTrip
pub mod BasicHeader
mod Tests
