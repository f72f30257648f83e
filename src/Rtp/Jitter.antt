-- ===== src/Rtp/Jitter.antt =====
-- src/net/webrtc/jitterbuffer.hpp, jitterbuffer_pub.hpp and jitterbuffer.cpp: packets put back into the
-- order of their sequence numbers, and waited for up to a limit. Of a packet the buffer reads the
-- sequence number and the time at which its copy was parsed, which is that of the call; `body` stands
-- for the rest of it. The time `now` of a call in milliseconds is an argument. The map is the list
-- of its entries in the order of their keys. The callbacks made are listed as events.
pub mod Sequence
pub mod Order
pub mod Timeout
pub mod Stream
mod Tests
use cpp_streamer.Base.{
  ℕ, zero, suc, ◌+◌, ◌-◌, ◌*◌, ◌/◌, ◌%◌, ◌^◌, ◌≤◌, ◌<◌, min, bit_and, bit_or, bit_xor,
}
use cpp_streamer.Base.{
  ◌≡◌, refl, sym, ap, ◌∙◌, ◌≢◌, ◌⊎◌, inl, inr, Bool, true, false, not, ◌&&◌, ◌||◌,
}
use cpp_streamer.Base.{
  Option, none, some, List, [], ◌∷◌, ◌++◌, map, append_assoc, append-nil, arith,
}
use cpp_streamer.Base.{
  ltb, leb, ◌==◌, if◌then◌else◌, ◌>>=◌, ltb→lt, lt→ltb, leb→le, Bool-cases, IsByte,
}
use cpp_streamer.Base.{length, get_elem?, take, drop, All, length-append, length-take, length-drop}
use cpp_streamer.Base.{take-append-drop, take-append, drop-append, take-all, drop-drop, All-append}

pub record PacketInfo : Type 0 where
  pub extend_seq : ℕ
  pub local_ms : ℕ
  pub body : List ℕ

-- RtpPacketOutput and RtpPacketReset
pub data Event : Type 0 where
  output lost : PacketInfo → Event

-- `report_lost_ts` is one more than `report_lost_ts_`, which starts at -1.
pub record JitterBuffer : Type 0 where
  pub init_flag : Bool
  pub base_seq : ℕ
  pub max_seq : ℕ
  pub bad_seq : ℕ
  pub cycles : ℕ
  pub packets : List PacketInfo
  pub output_seq : ℕ
  pub report_lost_ts : ℕ
  pub buffer_timeout : ℕ

-- RTP_SEQ_MOD, MAX_DROPOUT and MAX_MISORDER
abbrev rtp_seq_mod : ℕ
rtp_seq_mod = 65536

pub data MediaType : Type 0 where
  video audio other : MediaType

-- JITTER_BUFFER_VIDEO_TIMEOUT and JITTER_BUFFER_AUDIO_TIMEOUT; for other media the constructor throws.
pub new_jitter_buffer : MediaType → Option JitterBuffer
new_jitter_buffer type = do
  limit ← elim type [ video ↦ some 400 | audio ↦ some 100 | other ↦ none ]
  some (record {
    init_flag = false;
    base_seq = 0;
    max_seq = 0;
    bad_seq = rtp_seq_mod + 1;
    cycles = 0;
    packets = [];
    output_seq = 0;
    report_lost_ts = 0;
    buffer_timeout = limit;
  })

pub init_seq : ℕ → JitterBuffer → JitterBuffer
init_seq seq b = record b { base_seq = seq; max_seq = seq; bad_seq = rtp_seq_mod + 1; cycles = 0 }

-- What UpdateSeq returns: `bad` for false, and else `extend_seq` and `reset`.
pub data Verdict : Type 0 where
  bad : Verdict
  good : ℕ → Bool → Verdict

pub update_seq : ℕ → JitterBuffer → JitterBuffer × Verdict
unfolding init_seq
update_seq seq b =
    let udelta = (seq + rtp_seq_mod - b.max_seq) % rtp_seq_mod in
    if ltb udelta 3000
    then (let turns = if ltb seq b.max_seq then (b.cycles + rtp_seq_mod) % 2 ^ 32 else b.cycles in
        (record b { cycles = turns; max_seq = seq }, good ((turns + seq) % 2 ^ 32) false))
    else if leb udelta (rtp_seq_mod - 100)
    then (if seq == b.bad_seq
        then (init_seq seq b, good seq true)
        else (record b { bad_seq = (seq + 1) % rtp_seq_mod }, bad))
    else (b, good ((b.cycles + seq) % 2 ^ 32) false)

pub report_lost : ℕ → PacketInfo → JitterBuffer → JitterBuffer × List Event
report_lost now p b =
    if ltb (b.report_lost_ts + 500) (now + 1)
    then (record b { report_lost_ts = now + 1 }, lost p ∷ [])
    else (b, [])

-- The loop that empties the map from its front while the numbers go on; `next` is the last one output.
pub drain : ℕ → List PacketInfo → ℕ × List PacketInfo × List Event
drain next [] = (next, [], [])
drain next (p ∷ m) =
    let (last, kept, events) = drain p.extend_seq m in
    if next + 1 == p.extend_seq then (last, kept, output p ∷ events) else (next, p ∷ m, [])

-- `rtp_packets_map_[extend_seq] = pkt_info_ptr`
pub insert_packet : PacketInfo → List PacketInfo → List PacketInfo
insert_packet p [] = p ∷ []
insert_packet p (q ∷ m) =
    if ltb p.extend_seq q.extend_seq
    then p ∷ q ∷ m
    else if p.extend_seq == q.extend_seq
    then p ∷ m
    else q ∷ insert_packet p m

-- The loop of CheckTimeout over the rest of the map.
pub check_packets : ℕ → List PacketInfo → JitterBuffer → JitterBuffer × List PacketInfo × List Event
check_packets now [] b = (b, [], [])
check_packets now (p ∷ m) b =
    if ltb (p.local_ms + b.buffer_timeout) now
    then (let (b1, told) = report_lost now p (record b { output_seq = p.extend_seq }) in
        let (b2, kept, events) = check_packets now m b1 in (b2, kept, output p ∷ told ++ events))
    else if b.output_seq + 1 == p.extend_seq
    then (let (b2, kept, events) = check_packets now m (record b { output_seq = p.extend_seq }) in
        (b2, kept, output p ∷ events))
    else (let (b2, kept, events) = check_packets now m b in (b2, p ∷ kept, events))

-- CheckTimeout, which OnTimer calls.
pub check_timeout : ℕ → JitterBuffer → JitterBuffer × List Event
unfolding check_packets
check_timeout now b =
    let (b', kept, events) = check_packets now b.packets b in (record b' { packets = kept }, events)

-- InputRtpPacket after the sequence number has been taken in.
pub place_packet : ℕ → PacketInfo → Bool → JitterBuffer → JitterBuffer × List Event
unfolding drain insert_packet check_timeout report_lost
place_packet now p true b =
    let (b', told) = report_lost now p b in
    (record b' { output_seq = p.extend_seq }, told ++ output p ∷ [])
place_packet now p false b =
    if b.output_seq + 1 == p.extend_seq
    then (let (last, kept, events) = drain p.extend_seq b.packets in
        (record b { output_seq = last; packets = kept }, output p ∷ events))
    else if leb p.extend_seq b.output_seq
    then (b, [])
    else check_timeout now (record b { packets = insert_packet p b.packets })

take_verdict : ℕ → List ℕ → JitterBuffer × Verdict → JitterBuffer × List Event
unfolding place_packet
take_verdict now body (b, bad) = (b, [])
take_verdict now body (b, good extend_seq reset) =
    place_packet now (record { extend_seq = extend_seq; local_ms = now; body = body }) reset
      (record b { init_flag = if reset then false else b.init_flag })

pub input_rtp_packet : ℕ → ℕ → List ℕ → JitterBuffer → JitterBuffer × List Event
unfolding take_verdict update_seq init_seq place_packet
input_rtp_packet now seq body b =
    if b.init_flag
    then take_verdict now body (update_seq seq b)
    else place_packet now (record { extend_seq = seq; local_ms = now; body = body }) true
        (init_seq seq (record b { init_flag = true }))
