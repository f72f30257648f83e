-- ===== src/Rtp/Packet/Tests.antt =====
-- RTP packets: witnesses and runs.
use cpp_streamer.Base.{ℕ, ◌≡◌, refl, true, false, some, List, [], ◌∷◌, arith, length}
use cpp_streamer.Base.Outcome.{done, ◌>>=◌}
use cpp_streamer.Rtp.Packet.{RtpPacket, parse}
use cpp_streamer.Rtp.Packet.Elements.{Safe}
use cpp_streamer.Rtp.Packet.Safety.{parse-Safe}
use cpp_streamer.Rtp.Packet.Finding.{Parsed}
use cpp_streamer.Rtp.Packet.Extensions.{get_extension}
use cpp_streamer.Rtp.Packet.Extensions.Values.{ValueInside, get_extension-parse}
use cpp_streamer.Rtp.Packet.Rtx.{rtx_mux, rtx_demux, rtx_demux-mux, Restored}

-- One-byte elements 1 (three bytes) and 2 (one byte) with padding between, and a payload of three bytes.
abbrev pub wire : List ℕ
wire =
    0x90 ∷ 0x60 ∷ 0x12 ∷ 0x34 ∷ 0 ∷ 0 ∷ 0 ∷ 1 ∷ 0 ∷ 0 ∷ 0 ∷ 7 ∷ 0xbe ∷ 0xde ∷ 0 ∷ 2 ∷ 0x12 ∷ 1 ∷ 2
    ∷ 3 ∷ 0 ∷ 0x20 ∷ 9 ∷ 0 ∷ 0xaa ∷ 0xbb ∷ 0xcc ∷ []

abbrev pub packet : RtpPacket
packet = record {
  header = record {
    csrc_count = 0;
    extension = true;
    padding = false;
    version = 2;
    payload_type = 0x60;
    marker = 0;
    sequence = 0x1234;
    timestamp = 1;
    ssrc = 7;
  };
  body = 0xbe ∷ 0xde ∷ 0 ∷ 2 ∷ 0x12 ∷ 1 ∷ 2 ∷ 3 ∷ 0 ∷ 0x20 ∷ 9 ∷ 0 ∷ 0xaa ∷ 0xbb ∷ 0xcc ∷ [];
  ext = some 0;
  payload = 12;
  payload_len = 3;
  pad_len = 0;
  data_len = 27;
  mid_extension_id = 0;
  abs_time_extension_id = 0;
  onebyte_ext_map = (2, 9) ∷ (1, 4) ∷ [];
  twobytes_ext_map = [];
}

parse_test : parse 27 wire ≡ done packet
unfolding parse cpp_streamer.Utils.ByteStream.read2_bytes
parse_test = refl

parse-Safe_example : Safe (Parsed 27 (length wire)) (parse 27 wire)
parse-Safe_example = parse-Safe 27 wire (omega arith) (omega arith)

get_extension-parse_example : Safe (λ p. Safe (ValueInside p) (get_extension 1 p)) (parse 27 wire)
get_extension-parse_example = get_extension-parse 27 wire 1 (omega arith) (omega arith)

-- A packet in a buffer with two bytes more.
abbrev sent : RtpPacket
sent = record packet {
  body = 0xbe ∷ 0xde ∷ 0 ∷ 0 ∷ 0xaa ∷ 0xbb ∷ 0xcc ∷ 0 ∷ 0 ∷ [];
  payload = 4;
  onebyte_ext_map = [];
  data_len = 19;
}

rtx_demux-mux_example :
    (r : RtpPacket) × ((rtx_mux 0x61 8 5 sent >>= rtx_demux 7 0x60) ≡ done r) × Restored sent r
rtx_demux-mux_example =
    rtx_demux-mux 0x61 8 5 sent (omega arith) (omega arith) (omega arith) (omega arith)
      (omega arith)
