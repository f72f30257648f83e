-- ===== src/Rtp/PackH264/Tests.antt =====
-- H.264 over RTP: a unit of 1300 bytes at a receiver that expects the number 7.
use cpp_streamer.Base.{◌+◌, ◌%◌}
use cpp_streamer.Base.{◌++◌}
use cpp_streamer.Base.{
  ℕ, zero, suc, ◌+◌, ◌-◌, ◌≤◌, ◌≡◌, refl, true, false, List, [], ◌∷◌, arith, length,
}
use cpp_streamer.Base.Outcome.{done}
use cpp_streamer.Rtp.PackH264.{
  PackHandleH264, demux_stap_a, input_rtp_packet, output_stap_a, parse_stap_a,
}
use cpp_streamer.Rtp.PackH264.Sender.{
  generate_stap_a_packets, with_sizes, Fragment, generate_fu_a_packets, split_nalu, split_loop,
}
use cpp_streamer.Rtp.PackH264.Steps.{received, arrival}
use cpp_streamer.Rtp.PackH264.Aggregates.{packets_of_units, input-generate_stap_a}
use cpp_streamer.Rtp.PackH264.RoundTrip.{feed, feed-generate}

zeros : ℕ → List ℕ
zeros zero = []
zeros (suc n) = 0 ∷ zeros n

abbrev slice : List ℕ
unfolding zeros
slice = zeros 1299

abbrev expecting : PackHandleH264
expecting = record {
  init_flag = true;
  last_extend_seq = 6;
  start_flag = false;
  end_flag = false;
  packets_queue = [];
  report_lost_ts = 0;
  sent = [];
  lost = [];
}

sizes_test : split_nalu 2500 ≡ 1200 ∷ 1200 ∷ 100 ∷ []
unfolding split_nalu split_loop
sizes_test = refl

-- Two units in one packet, and an empty unit behind them, which ends the packet in an error.
two_units_test :
    (demux_stap_a (record {
      extend_seq = 1;
      timestamp = 9;
      local_ms = 0;
      payload = 24 ∷ 0 ∷ 1 ∷ 0x67 ∷ 0 ∷ 2 ∷ 0x65 ∷ 1 ∷ 0 ∷ 0 ∷ [];
    })).1
    ≡ false
unfolding demux_stap_a parse_stap_a output_stap_a
two_units_test = refl

feed-generate_example :
    (fs : List Fragment) × (generate_fu_a_packets 0 (0x65 ∷ slice) ≡ done fs)
    × (2 ≤ length fs)
    × (feed (λ i. 100 + i % 2) 9000 (λ i. 50 + i % 2) 7 fs expecting
        ≡ done (received expecting (7 + (length fs - 1)) 9000 0x65 slice))
unfolding zeros
feed-generate_example =
    feed-generate (λ i. 100 + i % 2) (λ i. 50 + i % 2) 9000 7 0 0x65 slice expecting (omega arith)
      (omega arith) (omega arith) (λ i. omega arith) refl refl

input-generate_stap_a_example :
    (f : Fragment) × (generate_stap_a_packets 0 ((0x67 ∷ 66 ∷ []) ∷ (0x68 ∷ []) ∷ []) ≡ done f)
    × (input_rtp_packet 100 (arrival 9000 50 7 f.payload) expecting
        ≡ done (record expecting {
          init_flag = true;
          last_extend_seq = 7;
          sent = expecting.sent ++ packets_of_units 9000 ((0x67 ∷ 66 ∷ []) ∷ (0x68 ∷ []) ∷ []);
        }))
unfolding with_sizes
input-generate_stap_a_example =
    input-generate_stap_a 100 9000 50 7 0 0x67 (66 ∷ []) ((0x68 ∷ []) ∷ []) expecting (omega arith)
      (omega arith) refl
