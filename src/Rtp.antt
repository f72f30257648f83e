-- ===== src/Rtp.antt =====
-- RTP packets, their sequence numbers, retransmission requests and reordering, under src/net/rtprtcp and
-- src/net/webrtc.
pub mod Packet
pub mod PackH264
pub mod Seq
pub mod Nack
pub mod FbNack
pub mod Jitter
