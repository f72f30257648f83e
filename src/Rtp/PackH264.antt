-- ===== src/Rtp/PackH264.antt =====
-- src/net/webrtc/pack_handle_h264.cpp: units of H.264 put together from RTP packets. A packet is its payload
-- with what the receiver reads of it; a read behind the payload is a fault. The clock is an argument.
pub mod Sender
pub mod Steps
pub mod RoundTrip
pub mod Aggregates
mod Tests
use cpp_streamer.Base.{
  ℕ, zero, suc, ◌+◌, ◌-◌, ◌*◌, ◌/◌, ◌%◌, Bool, true, false, not, ◌&&◌, ◌||◌, Option, none, some,
  List, [], ◌∷◌, ◌++◌, ltb, leb, ◌==◌, if◌then◌else◌, length, get_elem?, take, drop,
}
use cpp_streamer.Base.Outcome.{Outcome, done, fault, ◌>>=◌, access}
use cpp_streamer.Flv.{MediaPacket, video, h264}

pub record RtpPacketInfo : Type 0 where
  pub extend_seq : ℕ
  pub timestamp : ℕ
  pub local_ms : ℕ
  pub payload : List ℕ

-- No time is negative. `sent` are the packets output and `lost` the numbers that PackHandleReset was called for.
pub record PackHandleH264 : Type 0 where
  pub init_flag : Bool
  pub last_extend_seq : ℕ
  pub start_flag : Bool
  pub end_flag : Bool
  pub packets_queue : List RtpPacketInfo
  pub report_lost_ts : ℕ
  pub sent : List MediaPacket
  pub lost : List ℕ

unfoldable pub get_start_end_bit : List ℕ → Outcome (Bool × Bool)
get_start_end_bit payload = do
  fu_header ← access (get_elem? payload 1)
  done (fu_header / 128 % 2 == 1, fu_header / 64 % 2 == 1)

unfoldable pub report_lost : ℕ → ℕ → PackHandleH264 → PackHandleH264
report_lost now seq h =
    if ltb (h.report_lost_ts + 500) now
    then record h { report_lost_ts = now; lost = h.lost ++ (seq ∷ []) }
    else h

unfoldable pub check_fua_timeout : ℕ → List RtpPacketInfo → List RtpPacketInfo
check_fua_timeout now [] = []
check_fua_timeout now (p ∷ ps) =
    let later = check_fua_timeout now ps in if ltb now (p.local_ms + 600) then p ∷ ps else later

abbrev pub reset_rtp_fua : PackHandleH264 → PackHandleH264
reset_rtp_fua h = record h { start_flag = false; end_flag = false; packets_queue = [] }

abbrev pub nal_start_code : List ℕ
nal_start_code = 0 ∷ 0 ∷ 0 ∷ 1 ∷ []

-- The packet that is output for a unit whose first byte is `head`.
abbrev pub media_of_unit : ℕ → ℕ → List ℕ → MediaPacket
media_of_unit dts head bytes =
    let type = head % 32 in
    record {
      av_type = video;
      codec_type = h264;
      is_seq_hdr = type == 7 || type == 8;
      is_key_frame = type == 5;
      dts = dts;
      pts = dts;
      bytes = bytes;
    }

-- What DemuxFua leaves: the bytes, the last time, both of its flags, and the queue.
pub record Gathered : Type 0 where
  pub buffer : List ℕ
  pub timestamp : ℕ
  pub has_start : Bool
  pub has_end : Bool
  pub queue : List RtpPacketInfo

-- The bytes after one packet; `first` is that the index is 0.
unfoldable pub gather_one : Bool → Bool → Bool → List ℕ → List ℕ → Outcome (List ℕ)
gather_one first start has_start buffer (a ∷ b ∷ rest) = done (
    if first
    then if start then nal_start_code ++ ((a / 32 % 8 * 32 + b % 32) ∷ rest) else buffer
    else if has_start
    then buffer ++ rest
    else buffer)
gather_one first start has_start buffer payload = fault

unfoldable pub demux_fua : Bool → Bool → ℕ → List ℕ → List RtpPacketInfo → Outcome Gathered
demux_fua first has_start ts buffer [] =
    done (record {
      buffer = buffer;
      timestamp = ts;
      has_start = has_start;
      has_end = false;
      queue = [];
    })
demux_fua first has_start ts buffer (p ∷ ps) = do
  bits ← get_start_end_bit p.payload
  bytes ← gather_one first bits.0 has_start buffer p.payload
  let started = has_start || (first && bits.0)
  let more = demux_fua false started p.timestamp bytes ps
  if bits.1
      then done (record {
        buffer = bytes;
        timestamp = p.timestamp;
        has_start = started;
        has_end = true;
        queue = ps;
      })
      else more

-- InputRtpPacket from where both flags are set.
unfoldable pub finish_fua : ℕ → ℕ → PackHandleH264 → Outcome PackHandleH264
unfolding demux_fua report_lost
finish_fua now seq h = do
  g ← demux_fua true false 0 [] h.packets_queue
  let left = record h { start_flag = false; end_flag = false; packets_queue = g.queue }
  if g.has_start && g.has_end
      then (do
        head ← access (get_elem? g.buffer 4)
        done (record left { sent = h.sent ++ (media_of_unit g.timestamp head g.buffer ∷ []) }))
      else done (report_lost now seq left)

-- InputRtpPacket for a fragment with its two bits.
unfoldable pub take_fragment :
    ℕ → RtpPacketInfo → PackHandleH264 → Bool → Bool → Outcome PackHandleH264
unfolding finish_fua report_lost check_fua_timeout
take_fragment now p h start end =
    let h1 = if start then record h { packets_queue = []; start_flag = true } else h in
    let h2 = record h1 {
      end_flag = end || h1.end_flag;
      packets_queue = h1.packets_queue ++ (p ∷ []);
    } in
    if start && end
    then done (report_lost now p.extend_seq (reset_rtp_fua h))
    else if end && not h1.start_flag
    then done (report_lost now p.extend_seq (reset_rtp_fua h1))
    else if h2.start_flag && h2.end_flag
    then finish_fua now p.extend_seq h2
    else done (record h2 { packets_queue = check_fua_timeout now h2.packets_queue })

unfoldable pub input_fua : ℕ → RtpPacketInfo → PackHandleH264 → Outcome PackHandleH264
unfolding take_fragment
input_fua now p h = do bits ← get_start_end_bit p.payload; take_fragment now p h bits.0 bits.1

-- ParseStapAOffsets: the units that lie between the offsets.
unfoldable pub parse_stap_a : ℕ → List ℕ → Option (List (List ℕ))
parse_stap_a zero p = some []
parse_stap_a (suc fuel) [] = some []
parse_stap_a (suc fuel) (a ∷ []) = none
parse_stap_a (suc fuel) (a ∷ b ∷ p) =
    let nalu_len = a * 256 + b in
    let more = parse_stap_a fuel (drop nalu_len p) in
    if ltb (length p) nalu_len
    then none
    else elim more [ none ↦ none | some units ↦ some (take nalu_len p ∷ units) ]

-- The units that are output before an empty one, and whether there is none.
unfoldable pub output_stap_a : ℕ → List (List ℕ) → List MediaPacket × Bool
output_stap_a dts [] = ([], true)
output_stap_a dts ([] ∷ units) = ([], false)
output_stap_a dts ((head ∷ unit) ∷ units) =
    let (packets, ok) = output_stap_a dts units in
    (media_of_unit dts head (nal_start_code ++ (head ∷ unit)) ∷ packets, ok)

-- DemuxStapA
unfoldable pub demux_stap_a : RtpPacketInfo → List MediaPacket × Bool
unfolding parse_stap_a output_stap_a
demux_stap_a p =
    if leb (length p.payload) 3
    then ([], false)
    else (elim (parse_stap_a (length p.payload) (drop 1 p.payload)) [
      | none ↦ ([], false)
      | some units ↦ output_stap_a p.timestamp units
    ])

-- InputRtpPacket behind the test of the number.
unfoldable pub input_payload : ℕ → RtpPacketInfo → PackHandleH264 → Outcome PackHandleH264
unfolding input_fua demux_stap_a report_lost
input_payload now p h = do
  head ← access (get_elem? p.payload 0)
  let nal_type = head % 32
  let (packets, ok) = demux_stap_a p
  let aggregated = record h { sent = h.sent ++ packets }
  if leb 1 nal_type && leb nal_type 23
      then done (record h {
        sent = h.sent ++ (media_of_unit p.timestamp head (nal_start_code ++ p.payload) ∷ []);
      })
      else if nal_type == 28
      then input_fua now p h
      else if nal_type == 24
      then done (if ok then aggregated else report_lost now p.extend_seq aggregated)
      else done h

unfoldable pub input_rtp_packet : ℕ → RtpPacketInfo → PackHandleH264 → Outcome PackHandleH264
unfolding input_payload report_lost
input_rtp_packet now p h =
    let numbered = record h { init_flag = true; last_extend_seq = p.extend_seq } in
    if h.init_flag && not (h.last_extend_seq + 1 == p.extend_seq)
    then done
        (record (report_lost now p.extend_seq (reset_rtp_fua h)) { last_extend_seq = p.extend_seq })
    else input_payload now p numbered

-- OnTimer
on_timer : ℕ → PackHandleH264 → PackHandleH264
on_timer now h = record h { packets_queue = check_fua_timeout now h.packets_queue }
