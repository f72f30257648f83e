-- ===== src/Rtmp/Chunk/Steps.antt =====
-- What one header and one payload do to a chunk stream, for a sender that sends no extended timestamp.
use cpp_streamer.Base.{ℕ, ◌+◌, ◌-◌, ◌*◌, ◌<◌, min}
use cpp_streamer.Base.{◌≡◌, true, false}
use cpp_streamer.Base.{some, List, ◌∷◌, ◌++◌, arith}
use cpp_streamer.Base.{◌==◌, if◌then◌else◌}
use cpp_streamer.Base.{length, length-append}
use cpp_streamer.Base.{take-append, drop-append}
use cpp_streamer.Rtmp.Chunk.{
  ChunkStream, rtmp_ok, phase_header, phase_payload, read_msg_format0, read_msg_format3,
  read_message_header, read_message_payload, read_header_of, skip_timestamp,
}
use cpp_streamer.Utils.ByteStream.{read3_bytes, read4_bytes}

-- A format 0 header whose timestamp is below 0xffffff.
pub header0 :
    (csid a b d e f g t h i j k : ℕ) (c : ChunkStream) (rest : List ℕ)
    → c.phase ≡ phase_header
    → a * 0x10000 + b * 0x100 + d < 0xffffff
    → read_message_header 0 csid c (a ∷ b ∷ d ∷ e ∷ f ∷ g ∷ t ∷ h ∷ i ∷ j ∷ k ∷ rest)
      ≡ some (
        rtmp_ok,
        record c {
          fmt = 0;
          csid = csid;
          timestamp32 = a * 0x10000 + b * 0x100 + d;
          timestamp_delta = 0;
          msg_len = e * 0x10000 + f * 0x100 + g;
          type_id = t;
          msg_stream_id = h * 0x1000000 + i * 0x10000 + j * 0x100 + k;
          remain = e * 0x10000 + f * 0x100 + g;
          msg_count = 0;
          phase = phase_payload;
        },
        rest,
      )
unfolding read_message_header read_header_of read_msg_format0 read3_bytes read4_bytes
header0 csid a b d e f g t h i j k c rest p ts = ground arith

-- A format 3 header inside a message.
pub header3 :
    (csid : ℕ) (c : ChunkStream) (recv : List ℕ)
    → c.phase ≡ phase_header
    → 0 < c.remain
    → c.ext_ts_flag ≡ false
    → read_message_header 3 csid c recv
      ≡ some
          (rtmp_ok, record c { fmt = 3; csid = csid; msg_count = 0; phase = phase_payload }, recv)
unfolding read_message_header read_header_of read_msg_format3 skip_timestamp
header3 csid c recv p r e = ground arith

-- The stream after a payload `piece`.
abbrev pub absorbed : List ℕ → ChunkStream → ChunkStream
absorbed piece c = record c {
  require_len = length piece;
  chunk_data = c.chunk_data ++ piece;
  remain = c.remain - length piece;
  msg_count = c.msg_count + 1;
  chunk_ready = if c.remain - length piece == 0 then true else c.chunk_ready;
  phase = phase_header;
}

-- A payload that is all there.
pub payload_lem :
    (c : ChunkStream) (piece rest : List ℕ)
    → c.phase ≡ phase_payload
    → length piece ≡ min c.chunk_size c.remain
    → read_message_payload c (piece ++ rest) ≡ (rtmp_ok, absorbed piece c, rest)
unfolding read_message_payload
payload_lem c piece rest p h = ground (
  arith,
  length-append piece rest,
  take-append (length piece) piece rest,
  drop-append (length piece) piece rest,
)
