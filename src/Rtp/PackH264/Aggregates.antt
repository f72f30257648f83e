-- ===== src/Rtp/PackH264/Aggregates.antt =====
-- src/net/rtprtcp/rtp_h264_pack.cpp against src/net/webrtc/pack_handle_h264.cpp: small units in one packet.
use cpp_streamer.Base.{
  ℕ, zero, suc, ◌+◌, ◌*◌, ◌/◌, ◌%◌, ◌<◌, ◌≤◌, ◌≡◌, refl, true, false, not, ◌&&◌, some, List, [],
  ◌∷◌, ◌++◌, arith, ltb, leb, ◌==◌, length, length-append, take-append, drop-append, All,
}
use cpp_streamer.Base.Outcome.{done}
use cpp_streamer.Flv.{MediaPacket}
use cpp_streamer.Utils.ByteStream.{byte_of}
use cpp_streamer.Rtp.PackH264.{
  PackHandleH264, nal_start_code, media_of_unit, parse_stap_a, output_stap_a, demux_stap_a,
  input_payload, input_rtp_packet,
}
use cpp_streamer.Rtp.PackH264.Sender.{Fragment, with_sizes, generate_stap_a_packets}
use cpp_streamer.Rtp.PackH264.Steps.{arrival}

-- The packets that are output for units.
unfoldable pub packets_of_units : ℕ → List (List ℕ) → List MediaPacket
packets_of_units ts [] = []
packets_of_units ts ([] ∷ units) = packets_of_units ts units
packets_of_units ts ((head ∷ unit) ∷ units) =
    media_of_unit ts head (nal_start_code ++ (head ∷ unit)) ∷ packets_of_units ts units

count-with_sizes : (units : List (List ℕ)) → length units ≤ length (with_sizes units)
unfolding with_sizes
count-with_sizes [] = omega arith
count-with_sizes (u ∷ us) = omega (arith, length-append u (with_sizes us), count-with_sizes us)

parse-with_sizes :
    (fuel : ℕ) (units : List (List ℕ))
    → length units ≤ fuel
    → length (with_sizes units) < 65536
    → parse_stap_a fuel (with_sizes units) ≡ some units
unfolding parse_stap_a with_sizes
parse-with_sizes zero [] enough short = refl
parse-with_sizes zero (u ∷ us) enough short = absurd (omega arith)
parse-with_sizes (suc fuel) [] enough short = refl
parse-with_sizes (suc fuel) (u ∷ us) enough short =
    let size : length (u ++ with_sizes us) ≡ length u + length (with_sizes us) =
      length-append u (with_sizes us) in
    let read : byte_of (length u) 0x100 * 256 + byte_of (length u) 1 ≡ length u = omega arith in
    let inside : ltb (length (u ++ with_sizes us)) (length u) ≡ false = ground arith in
    rw
      (
        read,
        inside,
        drop-append (length u) u (with_sizes us) refl,
        parse-with_sizes fuel us (omega arith) (omega arith),
        read,
        take-append (length u) u (with_sizes us) refl,
      )
      refl

output-units :
    (ts : ℕ) (units : List (List ℕ))
    → All (λ u. 0 < length u) units
    → output_stap_a ts units ≡ (packets_of_units ts units, true)
unfolding output_stap_a packets_of_units
output-units ts [] h = refl
output-units ts ([] ∷ us) h = absurd (omega arith)
output-units ts ((head ∷ u) ∷ us) h = rw (output-units ts us h.1) refl

too_long : (n : ℕ) → leb (suc (suc (suc (suc n)))) 3 ≡ false
too_long n = ground arith

long_payload :
    (header : ℕ) (nalu : List ℕ) (nalus : List (List ℕ))
    → leb (suc (length (with_sizes ((header ∷ nalu) ∷ nalus)))) 3 ≡ false
unfolding with_sizes
long_payload header nalu nalus = too_long (length (nalu ++ with_sizes nalus))

demux-with_sizes :
    (ts local seq first header : ℕ) (nalu : List ℕ) (nalus : List (List ℕ))
    → All (λ u. 0 < length u) nalus
    → length (with_sizes ((header ∷ nalu) ∷ nalus)) < 65536
    → demux_stap_a (arrival ts local seq (first ∷ with_sizes ((header ∷ nalu) ∷ nalus)))
      ≡ (packets_of_units ts ((header ∷ nalu) ∷ nalus), true)
unfolding demux_stap_a
demux-with_sizes ts local seq first header nalu nalus full short =
    let units = (header ∷ nalu) ∷ nalus in
    let long : leb (length (first ∷ with_sizes units)) 3 ≡ false = long_payload header nalu nalus in
    let count = count-with_sizes units in
    rw
      (
        demux_stap_a,
        long,
        parse-with_sizes (suc (length (with_sizes units))) units (omega arith) short,
        output-units ts units (omega arith, full),
      )
      refl

-- GenerateStapAPackets for one unit or more, none of them empty, that with their lengths and `ext_len` bytes
-- of extension fit in a packet: it returns, and a receiver that is at its start or expects the packet's
-- number outputs one packet of video for each unit, in their order and byte by byte, with the time of the
-- packet. A unit in fragments that it was waiting for is not disturbed, and no loss is reported.
pub input-generate_stap_a :
    (now ts local seq ext_len header : ℕ) (nalu : List ℕ) (nalus : List (List ℕ))
    (h : PackHandleH264)
    → All (λ u. 0 < length u) nalus
    → length (with_sizes ((header ∷ nalu) ∷ nalus)) + 1 + 12 + ext_len ≤ 1500
    → (h.init_flag && not (h.last_extend_seq + 1 == seq)) ≡ false
    → (f : Fragment) × (generate_stap_a_packets ext_len ((header ∷ nalu) ∷ nalus) ≡ done f)
      × (input_rtp_packet now (arrival ts local seq f.payload) h
          ≡ done (record h {
            init_flag = true;
            last_extend_seq = seq;
            sent = h.sent ++ packets_of_units ts ((header ∷ nalu) ∷ nalus);
          }))
unfolding generate_stap_a_packets input_rtp_packet input_payload
input-generate_stap_a now ts local seq ext_len header nalu nalus h full fits next =
    let units = with_sizes ((header ∷ nalu) ∷ nalus) in
    let first = header / 32 % 8 * 32 + 24 in
    let room : leb (length units + 1 + 12 + ext_len) 1500 ≡ true = ground arith in
    let kind : first % 32 ≡ 24 = omega arith in
    (
      record { marker = false; payload = first ∷ units },
      rw (generate_stap_a_packets, room) refl,
      rw
          (
            input_rtp_packet,
            next,
            input_payload,
            kind,
            demux-with_sizes ts local seq first header nalu nalus full (omega arith),
          )
          refl,
    )
