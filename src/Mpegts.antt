-- ===== src/Mpegts.antt =====
-- src/format/mpegts: the MPEG-TS muxer and demuxer. Pes has the muxer's packets of audio and video, Psi its
-- tables, Demux the demuxer; the other modules have what holds of them together.
pub mod Pes
pub mod Psi
pub mod State
pub mod MediaInfo
pub mod PesReader
pub mod PsiReader
pub mod Demux
pub mod Units
pub mod Times
pub mod Rounds
pub mod Callback
pub mod Rest
pub mod First
pub mod RoundTrip
pub mod Shapes
pub mod Tables
pub mod Pipeline
pub mod KeyFrames
pub mod Checksums
pub mod Aac
mod Tests
