-- ===== src/Flv/Tests.antt =====
-- FLV tags: a witness and runs.
use cpp_streamer.Base.{ℕ, ◌≡◌, refl, true, false, none, some, List, [], ◌∷◌, ◌++◌, arith}
use cpp_streamer.Utils.ByteStream.{write4_bytes}
use cpp_streamer.Flv.{
  MediaPacket, FlvMuxer, video, audio, h264, mp3, mux_flv_header, input_packet, tag_type,
  media_header, read_tag_header,
}
use cpp_streamer.Flv.Laws.{read_tag_header-input_packet}

-- A key frame at 2^24 + 5 milliseconds.
abbrev frame : MediaPacket
frame = record {
  av_type = video;
  codec_type = h264;
  is_seq_hdr = false;
  is_key_frame = true;
  dts = 16777221;
  pts = 16777225;
  bytes = 1 ∷ 2 ∷ 3 ∷ [];
}

abbrev muxer : FlvMuxer
muxer = record { header_ready = false; has_video = true; has_audio = true }

-- The stream's header is marked as sent and not sent if the first packet is refused.
refused_test :
    input_packet (record frame { av_type = audio; codec_type = mp3 }) muxer
    ≡ (false, record muxer { header_ready = true }, none)
unfolding input_packet
refused_test = refl

media_header_test : media_header frame ≡ some (0x17 ∷ 1 ∷ 0 ∷ 0 ∷ 4 ∷ [])
unfolding media_header
media_header_test = refl

kind_test : tag_type video ≡ some 9
unfolding tag_type
kind_test = refl

read_tag_header-input_packet_example :
    (tag : List ℕ) × (input_packet frame muxer
      ≡ (true, record muxer { header_ready = true }, some (mux_flv_header muxer ++ tag)))
    × (read_tag_header (tag ++ (7 ∷ []))
        ≡ some (
          record { tag_type = 9; tag_data_size = 8; tag_timestamp = 5 },
          ((0x17 ∷ 1 ∷ 0 ∷ 0 ∷ 4 ∷ []) ++ frame.bytes) ++ (write4_bytes 19 ++ (7 ∷ [])),
        ))
read_tag_header-input_packet_example =
    read_tag_header-input_packet frame muxer 9 (0x17 ∷ 1 ∷ 0 ∷ 0 ∷ 4 ∷ []) (7 ∷ []) kind_test
      media_header_test (omega arith)
