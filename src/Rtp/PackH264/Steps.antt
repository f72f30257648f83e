-- ===== src/Rtp/PackH264/Steps.antt =====
-- src/net/webrtc/pack_handle_h264.cpp: what the receiver does with one fragment.
use cpp_streamer.Base.{
  ℕ, ◌+◌, ◌*◌, ◌/◌, ◌%◌, ◌<◌, ◌≡◌, refl, ap, ◌∙◌, true, false, not, ◌&&◌, List, [], ◌∷◌, ◌++◌,
  arith, ltb, ◌==◌, append_assoc, IsByte,
}
use cpp_streamer.Base.Outcome.{done}
use cpp_streamer.Rtp.PackH264.{
  RtpPacketInfo, PackHandleH264, get_start_end_bit, check_fua_timeout, nal_start_code,
  media_of_unit, gather_one, demux_fua, finish_fua, take_fragment, input_fua, input_payload,
  input_rtp_packet,
}

-- The payload of a fragment.
abbrev pub fragment : ℕ → ℕ → ℕ → List ℕ → List ℕ
fragment header start end chunk = (header / 32 % 8 * 32 + 28) ∷ (start + end + header % 32) ∷ chunk

bits_of :
    (header start end : ℕ) (chunk : List ℕ)
    → start < 2
    → end < 2
    → get_start_end_bit (fragment header (start * 128) (end * 64) chunk)
      ≡ done (start == 1, end == 1)
unfolding get_start_end_bit
bits_of header start end chunk hs he =
    let a : ((start * 128 + end * 64 + header % 32) / 128 % 2 == 1) ≡ (start == 1) = ground arith in
    let b : ((start * 128 + end * 64 + header % 32) / 64 % 2 == 1) ≡ (end == 1) = ground arith in
    rw (a, b) refl

-- The receiver between the first fragment and the last.
abbrev pub waiting : PackHandleH264 → ℕ → List RtpPacketInfo → PackHandleH264
waiting h last q = record h {
  init_flag = true;
  last_extend_seq = last;
  start_flag = true;
  end_flag = false;
  packets_queue = q;
}

-- A fragment as it arrives.
abbrev pub arrival : ℕ → ℕ → ℕ → List ℕ → RtpPacketInfo
arrival ts local seq payload = record {
  extend_seq = seq;
  timestamp = ts;
  local_ms = local;
  payload = payload;
}

-- The state that a fragment is taken in.
abbrev pub numbered : PackHandleH264 → ℕ → PackHandleH264
numbered h seq = record h { init_flag = true; last_extend_seq = seq }

is_fragment :
    (now ts local seq : ℕ) (h : PackHandleH264) (header start end : ℕ) (chunk : List ℕ)
    → start < 2
    → end < 2
    → (h.init_flag && not (h.last_extend_seq + 1 == seq)) ≡ false
    → let p = arrival ts local seq (fragment header (start * 128) (end * 64) chunk) in
      input_rtp_packet now p h ≡ take_fragment now p (numbered h seq) (start == 1) (end == 1)
unfolding input_rtp_packet input_payload input_fua
is_fragment now ts local seq h header start end chunk hs he next =
    let kind : (header / 32 % 8 * 32 + 28) % 32 ≡ 28 = omega arith in
    rw (next, kind, bits_of header start end chunk hs he) refl

pub mid_step :
    (now ts local last header : ℕ) (chunk : List ℕ) (f : RtpPacketInfo) (q : List RtpPacketInfo)
    (h : PackHandleH264)
    → now < f.local_ms + 600
    → let p = arrival ts local (last + 1) (fragment header 0 0 chunk) in
      input_rtp_packet now p (waiting h last (f ∷ q))
      ≡ done (waiting h (last + 1) (f ∷ (q ++ (p ∷ []))))
unfolding take_fragment check_fua_timeout
mid_step now ts local last header chunk f q h fresh =
    let in_time : ltb now (f.local_ms + 600) ≡ true = ground arith in
    is_fragment now ts local (last + 1) (waiting h last (f ∷ q)) header 0 0 chunk (omega arith)
      (omega arith) (ground arith)
    ∙ rw (take_fragment, in_time) refl

pub first_step :
    (now ts local seq header : ℕ) (chunk : List ℕ) (h : PackHandleH264)
    → (h.init_flag && not (h.last_extend_seq + 1 == seq)) ≡ false
    → h.end_flag ≡ false
    → now < local + 600
    → let p = arrival ts local seq (fragment header 128 0 chunk) in
      input_rtp_packet now p h ≡ done (waiting h seq (p ∷ []))
unfolding take_fragment check_fua_timeout
first_step now ts local seq header chunk h next idle fresh =
    let in_time : ltb now (local + 600) ≡ true = ground arith in
    is_fragment now ts local seq h header 1 0 chunk (omega arith) (omega arith) next
    ∙ rw (take_fragment, idle, in_time) refl

last_step :
    (now ts local last header : ℕ) (chunk : List ℕ) (q : List RtpPacketInfo) (h : PackHandleH264)
    → let p = arrival ts local (last + 1) (fragment header 0 64 chunk) in
      input_rtp_packet now p (waiting h last q)
      ≡ finish_fua now
          (last + 1)
          (record (waiting h (last + 1) (q ++ (p ∷ []))) { end_flag = true })
unfolding take_fragment
last_step now ts local last header chunk q h =
    is_fragment now ts local (last + 1) (waiting h last q) header 0 1 chunk (omega arith)
      (omega arith) (ground arith)

-- The bytes of a unit as they are output.
abbrev pub unit : ℕ → List ℕ → List ℕ
unit header body = nal_start_code ++ (header ∷ body)

-- DemuxFua comes to these bytes behind the packets of a queue.
abbrev pub Gathers : ℕ → List RtpPacketInfo → List ℕ → Type 0
Gathers ts q bytes =
    (tail : List RtpPacketInfo)
    → demux_fua true false 0 [] (q ++ tail) ≡ demux_fua false true ts bytes tail

pub first_Gathers :
    (ts local seq header : ℕ) (chunk : List ℕ)
    → IsByte header
    → Gathers ts (arrival ts local seq (fragment header 128 0 chunk) ∷ []) (unit header chunk)
unfolding demux_fua gather_one
first_Gathers ts local seq header chunk h tail =
    let whole : (header / 32 % 8 * 32 + 28) / 32 % 8 * 32 + (128 + 0 + header % 32) % 32 ≡ header =
      omega arith in
    rw (demux_fua, bits_of header 1 0 chunk (omega arith) (omega arith), whole) refl

pub mid_Gathers :
    (ts local seq header : ℕ) (chunk bytes : List ℕ) (q : List RtpPacketInfo)
    → Gathers ts q bytes
    → Gathers ts (q ++ (arrival ts local seq (fragment header 0 0 chunk) ∷ [])) (bytes ++ chunk)
unfolding demux_fua gather_one
mid_Gathers ts local seq header chunk bytes q g tail =
    let p = arrival ts local seq (fragment header 0 0 chunk) in
    ap (demux_fua true false 0 []) (append_assoc q (p ∷ []) tail)
    ∙ g (p ∷ tail)
    ∙ rw (demux_fua, bits_of header 0 0 chunk (omega arith) (omega arith)) refl

last_Gathers :
    (ts local seq header : ℕ) (chunk bytes : List ℕ) (q : List RtpPacketInfo)
    → Gathers ts q bytes
    → demux_fua true false 0 [] (q ++ (arrival ts local seq (fragment header 0 64 chunk) ∷ []))
      ≡ done (record {
        buffer = bytes ++ chunk;
        timestamp = ts;
        has_start = true;
        has_end = true;
        queue = [];
      })
unfolding demux_fua gather_one
last_Gathers ts local seq header chunk bytes q g =
    g (arrival ts local seq (fragment header 0 64 chunk) ∷ [])
    ∙ rw (demux_fua, bits_of header 0 1 chunk (omega arith) (omega arith)) refl

-- The receiver behind the last fragment.
abbrev pub received : PackHandleH264 → ℕ → ℕ → ℕ → List ℕ → PackHandleH264
received h last ts header body = record h {
  init_flag = true;
  last_extend_seq = last;
  start_flag = false;
  end_flag = false;
  packets_queue = [];
  sent = h.sent ++ (media_of_unit ts header (nal_start_code ++ (header ∷ body)) ∷ []);
}

pub finish_lem :
    (now ts local last header : ℕ) (chunk body : List ℕ) (q : List RtpPacketInfo)
    (h : PackHandleH264)
    → Gathers ts q (unit header body)
    → let p = arrival ts local (last + 1) (fragment header 0 64 chunk) in
      input_rtp_packet now p (waiting h last q)
      ≡ done (received h (last + 1) ts header (body ++ chunk))
unfolding finish_fua
finish_lem now ts local last header chunk body q h g =
    last_step now ts local last header chunk q h
    ∙ rw (finish_fua, last_Gathers ts local (last + 1) header chunk (unit header body) q g) refl
