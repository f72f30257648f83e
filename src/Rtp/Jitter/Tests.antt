-- ===== src/Rtp/Jitter/Tests.antt =====
-- The theorems on the jitter buffer at concrete packets.
use cpp_streamer.Base.{ℕ, ◌+◌, ◌%◌, ◌<◌}
use cpp_streamer.Base.{◌≡◌, refl, true, false}
use cpp_streamer.Base.{List, [], ◌∷◌, ◌++◌, arith}
use cpp_streamer.Base.{length}
use cpp_streamer.Rtp.Jitter.{
  PacketInfo, JitterBuffer, good, update_seq, place_packet, check_timeout,
}
use cpp_streamer.Rtp.Jitter.Sequence.{highest, IsCounting, update_seq_ahead}
use cpp_streamer.Rtp.Jitter.Order.{outputs, Continues, Stops, place_packet_next}
use cpp_streamer.Rtp.Jitter.Stream.{IsSettled, feed, numbered, feed-outputs}
use cpp_streamer.Rtp.Jitter.Timeout.{AllFresh, Split, check_timeout_lem}

abbrev packet : ℕ → ℕ → PacketInfo
packet extend_seq local_ms = record { extend_seq = extend_seq; local_ms = local_ms; body = [] }

-- Number 10 was output last, 12, 13 and 15 wait, and the numbers are about to wrap around.
abbrev buffered : JitterBuffer
buffered = record {
  init_flag = true;
  base_seq = 1;
  max_seq = 65535;
  bad_seq = 65537;
  cycles = 0;
  packets = packet 12 100 ∷ packet 13 110 ∷ packet 15 50 ∷ [];
  output_seq = 10;
  report_lost_ts = 1000;
  buffer_timeout = 100;
}

buffered-IsCounting : IsCounting buffered
buffered-IsCounting = omega arith

update_seq_ahead_example :
    let (b', v) = update_seq 3 buffered in
    (v ≡ good (highest buffered + 4) false)
    × (highest b' ≡ highest buffered + 4)
    × (b'.cycles % 65536 ≡ 0)
    × (b'.max_seq < 65536)
update_seq_ahead_example = update_seq_ahead 3 4 buffered buffered-IsCounting (omega arith) refl

-- Number 65534 was the first; the next three lead over the wrap.
abbrev started : JitterBuffer
started = record {
  init_flag = true;
  base_seq = 65534;
  max_seq = 65534;
  bad_seq = 65537;
  cycles = 0;
  packets = [];
  output_seq = 65534;
  report_lost_ts = 1000;
  buffer_timeout = 100;
}

started-IsSettled : IsSettled started
started-IsSettled = record {
  started = refl;
  turns = refl;
  max = omega arith;
  last = refl;
  empty = refl;
}

abbrev arrivals : List (ℕ × List ℕ)
arrivals = (5, 1 ∷ []) ∷ (900, 2 ∷ []) ∷ (901, 3 ∷ []) ∷ []

feed-outputs_example :
    let (b', events) = feed 65535 arrivals started in
    (events ≡ outputs (numbered 65535 arrivals))
    × IsSettled b'
    × (b'.output_seq + 1 ≡ 65535 + length arrivals)
feed-outputs_example = feed-outputs arrivals 65535 started started-IsSettled refl (omega arith)

place_packet_next_example :
    let (b', events) = place_packet 120 (packet 11 120) false buffered in
    (taken : List PacketInfo) × (taken ++ b'.packets ≡ buffered.packets)
    × (events ≡ outputs (packet 11 120 ∷ taken))
    × Continues 10 (packet 11 120 ∷ taken)
    × (b'.output_seq ≡ 10 + length (packet 11 120 ∷ taken))
    × Stops b'.output_seq b'.packets
place_packet_next_example = place_packet_next 120 (packet 11 120) buffered refl

check_timeout_example :
    let (b', events) = check_timeout 205 buffered in
    AllFresh 205 100 b'.packets × Split buffered.packets b'.packets events
check_timeout_example = check_timeout_lem 205 buffered

abbrev two_waiting : JitterBuffer
two_waiting = record buffered { packets = packet 12 100 ∷ packet 15 50 ∷ [] }
