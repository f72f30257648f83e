-- ===== src/Flv.antt =====
-- src/format/flv/flv_mux.cpp and flv_demux.cpp: the tags of an FLV stream. InputPacket of the muxer with the
-- bytes that it sends on, and the demuxer's reading of a tag's header. A packet has the fields that the
-- muxer reads; a timestamp is not negative.
pub mod Laws
mod Tests
use cpp_streamer.Base.{
  ℕ, zero, suc, ◌+◌, ◌-◌, ◌*◌, ◌/◌, ◌%◌, ◌^◌, ◌≤◌, ◌<◌, min, bit_and, bit_or, bit_xor,
}
use cpp_streamer.Base.{
  ◌≡◌, refl, sym, ap, ◌∙◌, ◌≢◌, ◌⊎◌, inl, inr, Bool, true, false, not, ◌&&◌, ◌||◌,
}
use cpp_streamer.Base.{
  Option, none, some, List, [], ◌∷◌, ◌++◌, map, append_assoc, append-nil, arith,
}
use cpp_streamer.Base.{
  ltb, leb, ◌==◌, if◌then◌else◌, ltb→lt, lt→ltb, leb→le, Bool-cases, Option-cases, IsByte, ◌>>=◌,
}
use cpp_streamer.Base.{
  length, get_elem?, take, drop, All, length-append, length-take, length-drop, take-append-drop,
  drop-drop, take-append, drop-append, take-all,
}
use cpp_streamer.Utils.ByteStream.{read3_bytes, read4_bytes, write3_bytes, write4_bytes, byte_of}

pub data AvType : Type 0 where
  unknown_av video audio movbox metadata : AvType

pub data CodecType : Type 0 where
  unknown_codec h264 h265 h266 vp8 vp9 av1 aac opus mp3 : CodecType

pub record MediaPacket : Type 0 where
  pub av_type : AvType
  pub codec_type : CodecType
  pub is_seq_hdr : Bool
  pub is_key_frame : Bool
  pub dts : ℕ
  pub pts : ℕ
  pub bytes : List ℕ

pub record FlvMuxer : Type 0 where
  pub header_ready : Bool
  pub has_video : Bool
  pub has_audio : Bool

-- MuxFlvHeader
pub mux_flv_header : FlvMuxer → List ℕ
mux_flv_header m =
    let flag = bit_or (if m.has_video then 0x01 else 0) (if m.has_audio then 0x04 else 0) in
    0x46 ∷ 0x4c ∷ 0x56 ∷ 1 ∷ flag ∷ 0 ∷ 0 ∷ 0 ∷ 9 ∷ 0 ∷ 0 ∷ 0 ∷ 0 ∷ []

-- FLV_TAG_AUDIO, FLV_TAG_VIDEO and FLV_TAG_TYPE_META
pub tag_type : AvType → Option ℕ
tag_type audio = some 8
tag_type video = some 9
tag_type metadata = some 0x12
tag_type other = none

pub video_codec : CodecType → Option ℕ
video_codec h264 = some 0x07
video_codec h265 = some 0x0c
video_codec vp8 = some 0x0e
video_codec vp9 = some 0x0f
video_codec other = none

pub audio_codec : CodecType → Option ℕ
audio_codec aac = some 0xa0
audio_codec opus = some 0x90
audio_codec other = none

-- What stands between the tag's header and the data.
pub media_header : MediaPacket → Option (List ℕ)
unfolding video_codec audio_codec write3_bytes
media_header p = elim (p.av_type) [
  | video ↦ elim (video_codec p.codec_type) [
    | none ↦ none
    | some codec ↦
        let flag = if p.is_seq_hdr then 0x10 else if p.is_key_frame then 0x10 else 0x20 in
        let delta = if ltb p.dts p.pts then p.pts - p.dts else 0 in
        some (bit_or flag codec ∷ (if p.is_seq_hdr then 0 else 1) ∷ write3_bytes delta)
  ]
  | audio ↦ elim (audio_codec p.codec_type) [
    | none ↦ none
    | some codec ↦ some (bit_or 0x0f codec ∷ (if p.is_seq_hdr then 0 else 1) ∷ [])
  ]
  | metadata ↦ some []
  | unknown_av ↦ none
  | movbox ↦ none
]

-- The eleven bytes of a tag's header, with the timestamp's low three bytes, its high one, and stream 1.
pub tag_header : ℕ → ℕ → ℕ → List ℕ
unfolding write3_bytes
tag_header type media_size dts =
    let timestamp_base = dts % 2 ^ 24 in
    type
    ∷ (write3_bytes media_size
        ++ (write3_bytes timestamp_base ++ (byte_of (dts % 2 ^ 24) (2 ^ 24) ∷ 0 ∷ 0 ∷ 1 ∷ [])))

pub tag_bytes : ℕ → ℕ → List ℕ → List ℕ
unfolding tag_header write4_bytes
tag_bytes type dts media =
    tag_header type (length media) dts ++ (media ++ write4_bytes (11 + length media))

-- The code (`true` is 0), and what OutputPacket is called with; the header of the stream is in front of
-- the first tag, and marked as written before the packet is looked at.
pub input_packet : MediaPacket → FlvMuxer → Bool × FlvMuxer × Option (List ℕ)
unfolding mux_flv_header tag_type media_header tag_bytes
input_packet p m =
    let front = if m.header_ready then [] else mux_flv_header m in
    let m' = record m { header_ready = true } in
    elim (tag_type p.av_type) [
      | none ↦ (false, m', none)
      | some type ↦ elim (media_header p) [
        | none ↦ (false, m', none)
        | some header ↦ (true, m', some (front ++ tag_bytes type p.dts (header ++ p.bytes)))
      ]
    ]

pub record TagHeader : Type 0 where
  pub tag_type : ℕ
  pub tag_data_size : ℕ
  pub tag_timestamp : ℕ

-- The part of HandlePacket that reads a tag's header, if its eleven bytes are there.
pub read_tag_header : List ℕ → Option (TagHeader × List ℕ)
unfolding read3_bytes
read_tag_header [] = none
read_tag_header (type ∷ rest) = do
  size ← read3_bytes rest
  base ← read3_bytes (drop 3 rest)
  ext ← get_elem? rest 6
  if ltb (length rest) 10
      then none
      else some (
        record {
          tag_type = type;
          tag_data_size = size;
          tag_timestamp = bit_or base (ext * 2 ^ 24);
        },
        drop 10 rest,
      )
