-- ===== src/Mpegts/Aac.antt =====
-- src/format/mpegts/mpegts_mux.cpp: HandleAudioAac, which puts a header in front of a frame of AAC.
pub mod Laws
mod Tests
use cpp_streamer.Base.{
  ℕ, ◌≤◌, Bool, ◌&&◌, ◌||◌, List, [], ◌++◌, leb, ◌==◌, if◌then◌else◌, length, take, drop,
}
use cpp_streamer.Base.Outcome.{Outcome, done, ◌>>=◌}
use cpp_streamer.Flv.{CodecType, MediaPacket}
use cpp_streamer.AudioHeader.{get_adts_type_by_asc_type, make_adts}
use cpp_streamer.Mpegts.Pes.{PesMuxer, write_pes}

-- The part of the muxer that it reads and changes.
pub record AacMuxer : Type 0 where
  pub pes : PesMuxer
  pub audio_codec_type : CodecType
  pub aac_type : ℕ
  pub sample_rate : ℕ
  pub channel : ℕ

-- A packet with what it says of its sound, and the bytes in front of its data in their buffer.
pub record AacPacket : Type 0 where
  pub packet : MediaPacket
  pub has_flv_audio_asc : Bool
  pub aac_asc_type : ℕ
  pub sample_rate : ℕ
  pub channel : ℕ
  pub start : ℕ

-- ConsumeData with a negative length, then the copy to where the data begins now: without the room the
-- data stays where it is, and its first bytes are written over.
unfoldable pub put_front : List ℕ → ℕ → List ℕ → List ℕ
put_front header start bytes =
    if leb (length header) start
    then header ++ bytes
    else take (length bytes) (header ++ drop (length header) bytes)

-- The packet that is sent.
unfoldable pub with_adts : AacMuxer → AacPacket → MediaPacket
unfolding put_front
with_adts m p =
    let bytes = p.packet.bytes in
    let adts =
      make_adts (get_adts_type_by_asc_type p.aac_asc_type) m.sample_rate m.channel (length bytes) in
    record (p.packet) { bytes = put_front adts p.start bytes }

unfoldable pub handle_audio_aac : AacPacket → AacMuxer → Outcome (AacMuxer × List (List ℕ))
unfolding with_adts
handle_audio_aac p m =
    if p.packet.is_seq_hdr && p.has_flv_audio_asc
    then done (
      record m {
        audio_codec_type = p.packet.codec_type;
        sample_rate = p.sample_rate;
        channel = p.channel;
        aac_type = p.aac_asc_type;
      },
      [],
    )
    else if m.aac_type == 0 || m.sample_rate == 0 || m.channel == 0
    then done (m, [])
    else do r ← write_pes (with_adts m p) m.pes; done (record m { pes = r.0 }, r.1)
