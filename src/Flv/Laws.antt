-- ===== src/Flv/Laws.antt =====
-- src/format/flv: the tags that the muxer writes, read by the demuxer.
use cpp_streamer.Base.{ℕ, suc, ◌+◌, ◌*◌, ◌%◌, ◌^◌, ◌<◌}
use cpp_streamer.Base.{◌≡◌, refl, true, false}
use cpp_streamer.Base.{some, List, [], ◌++◌, append_assoc, arith}
use cpp_streamer.Base.{ltb, if◌then◌else◌}
use cpp_streamer.Base.{length}
use cpp_streamer.Utils.ByteStream.{read3_bytes, write3_bytes, write4_bytes, byte_of}
use cpp_streamer.Base.Bits.{bit_or_zero}
use cpp_streamer.Flv.{
  MediaPacket, FlvMuxer, mux_flv_header, tag_type, media_header, tag_header, tag_bytes,
  input_packet, read_tag_header,
}

read_tag_header-tag_bytes :
    (type dts : ℕ) (media rest : List ℕ)
    → length media < 2 ^ 24
    → read_tag_header (tag_bytes type dts media ++ rest)
      ≡ some (
        record { tag_type = type; tag_data_size = length media; tag_timestamp = dts % 2 ^ 24 },
        media ++ (write4_bytes (11 + length media) ++ rest),
      )
unfolding read_tag_header tag_bytes tag_header write3_bytes read3_bytes
read_tag_header-tag_bytes type dts media rest h =
    let held : ltb
          (suc (
            suc (
              suc (
                suc (
                  suc (
                    suc (
                      suc (
                        suc (
                          suc (
                            suc (
                              length
                                ((media ++ write4_bytes (11 + length media)) ++ rest))))))))))))
          10
        ≡ false =
      ground arith in
    let size : byte_of (length media) 0x10000 * 0x10000
          + byte_of (length media) 0x100 * 0x100
          + byte_of (length media) 1
        ≡ length media =
      omega arith in
    let base : byte_of (dts % 2 ^ 24) 0x10000 * 0x10000
          + byte_of (dts % 2 ^ 24) 0x100 * 0x100
          + byte_of (dts % 2 ^ 24) 1
        ≡ dts % 2 ^ 24 =
      omega arith in
    let high : byte_of (dts % 2 ^ 24) (2 ^ 24) * 2 ^ 24 ≡ 0 = omega arith in
    let tail : (media ++ write4_bytes (11 + length media)) ++ rest
        ≡ media ++ (write4_bytes (11 + length media) ++ rest) =
      append_assoc media (write4_bytes (11 + length media)) rest in
    rw (held, size, base, high, bit_or_zero (dts % 2 ^ 24), tail) refl

-- InputPacket of the muxer, on a packet of a kind and codec that it supports whose data with the codec's
-- header is shorter than 2^24, returns 0 and sends on a tag, behind the stream's header if that is not sent
-- yet. From this tag and any bytes behind it the demuxer reads the tag's kind, the length of codec header
-- and data, and the timestamp modulo 2^24; what is left begins with codec header and data, and with their
-- length and 11 more, the size of the whole tag.
pub read_tag_header-input_packet :
    (p : MediaPacket) (m : FlvMuxer) (type : ℕ) (header rest : List ℕ)
    → tag_type p.av_type ≡ some type
    → media_header p ≡ some header
    → length (header ++ p.bytes) < 2 ^ 24
    → (tag : List ℕ) × (input_packet p m ≡ (
      true,
      record m { header_ready = true },
      some ((if m.header_ready then [] else mux_flv_header m) ++ tag),
    ))
      × (read_tag_header (tag ++ rest)
          ≡ some (
            record {
              tag_type = type;
              tag_data_size = length (header ++ p.bytes);
              tag_timestamp = p.dts % 2 ^ 24;
            },
            (header ++ p.bytes) ++ (write4_bytes (11 + length (header ++ p.bytes)) ++ rest),
          ))
unfolding input_packet
read_tag_header-input_packet p m type header rest ht hh small = (
  tag_bytes type p.dts (header ++ p.bytes),
  rw (input_packet, ht, hh) refl,
  read_tag_header-tag_bytes type p.dts (header ++ p.bytes) rest small,
)
