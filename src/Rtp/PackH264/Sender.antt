-- ===== src/Rtp/PackH264/Sender.antt =====
-- src/net/rtprtcp/rtp_h264_pack.cpp and rtp_pack.hpp: a unit of H.264 in fragments, and small units together
-- in one packet. A packet is its payload and its marker.
use cpp_streamer.Base.{
  ℕ, zero, suc, ◌+◌, ◌-◌, ◌*◌, ◌/◌, ◌%◌, Bool, true, false, ◌&&◌, List, [], ◌∷◌, ◌++◌, ltb, leb,
  ◌==◌, if◌then◌else◌, length, take, drop,
}
use cpp_streamer.Base.Outcome.{Outcome, done, fault, ◌>>=◌}
use cpp_streamer.Utils.ByteStream.{byte_of}

abbrev pub payload_max_size : ℕ
payload_max_size = 1200

-- SplitNalu
unfoldable pub split_loop : ℕ → ℕ → List ℕ
split_loop zero left = []
split_loop (suc fuel) left =
    let more = split_loop fuel (left - payload_max_size) in
    if ltb payload_max_size left
    then payload_max_size ∷ more
    else if ltb 0 left
    then left ∷ []
    else []

unfoldable pub split_nalu : ℕ → List ℕ
unfolding split_loop
split_nalu left = split_loop left left

pub record Fragment : Type 0 where
  pub marker : Bool
  pub payload : List ℕ

-- MakeRtpPacket makes none where the packet with its header and `ext_len` bytes of extension is too long.
abbrev pub has_room : ℕ → ℕ → Bool
has_room ext_len payload_len = leb (payload_len + 12 + ext_len) 1500

-- The loop over the sizes; `first` is that the index is 0.
unfoldable pub fragments : ℕ → ℕ → Bool → List ℕ → List ℕ → Outcome (List Fragment)
fragments ext_len header first [] rest = done []
fragments ext_len header first (size ∷ sizes) rest =
    let last = length sizes == 0 in
    let start = if first then 128 else 0 in
    let end = if last then 64 else 0 in
    let fu_indicator = header / 32 % 8 * 32 + 28 in
    let fu_header = start + end + header % 32 in
    let more = fragments ext_len header false sizes (drop size rest) in
    if has_room ext_len (size + 2) && leb size (length rest)
    then (do
      fs ← more
      done (record { marker = last; payload = fu_indicator ∷ fu_header ∷ take size rest } ∷ fs))
    else fault

-- GenerateFuAPackets
unfoldable pub generate_fu_a_packets : ℕ → List ℕ → Outcome (List Fragment)
unfolding fragments split_nalu
generate_fu_a_packets ext_len [] = fault
generate_fu_a_packets ext_len (header ∷ rest) =
    fragments ext_len header true (split_nalu (length rest)) rest

-- The loop of GenerateStapAPackets: each unit behind two bytes of its length.
unfoldable pub with_sizes : List (List ℕ) → List ℕ
with_sizes [] = []
with_sizes (nalu ∷ nalus) =
    byte_of (length nalu) 0x100 ∷ byte_of (length nalu) 1 ∷ (nalu ++ with_sizes nalus)

-- GenerateStapAPackets; the first byte is made from that of the first unit.
unfoldable pub generate_stap_a_packets : ℕ → List (List ℕ) → Outcome Fragment
generate_stap_a_packets ext_len ((header ∷ nalu) ∷ nalus) =
    let units = with_sizes ((header ∷ nalu) ∷ nalus) in
    if has_room ext_len (length units + 1)
    then done (record { marker = false; payload = (header / 32 % 8 * 32 + 24) ∷ units })
    else fault
generate_stap_a_packets ext_len nalus = fault
