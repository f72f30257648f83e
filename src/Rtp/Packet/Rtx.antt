-- ===== src/Rtp/Packet/Rtx.antt =====
-- src/net/rtprtcp/rtp_packet.cpp, RtxMux and RtxDemux: a packet sent again on the retransmission stream
-- (RFC 4588) has its first sequence number in front of its payload.
use cpp_streamer.Base.{ℕ, suc, ◌+◌, ◌-◌, ◌/◌, ◌%◌, ◌^◌, ◌≤◌, ◌<◌}
use cpp_streamer.Base.{◌≡◌, refl, ap, ◌∙◌, inl, inr, false}
use cpp_streamer.Base.{some, List, ◌∷◌, ◌++◌, arith}
use cpp_streamer.Base.{ltb, if◌then◌else◌, Bool-cases}
use cpp_streamer.Base.{length, take, drop, length-append, length-take, length-drop}
use cpp_streamer.Base.{take-append, drop-append}
use cpp_streamer.Base.Outcome.{Outcome, done, throws, fault, ◌>>=◌, access}
use cpp_streamer.Utils.ByteStream.{read2_bytes, write2_bytes}
use cpp_streamer.Utils.ByteStream.Laws.{read2-write2}
use cpp_streamer.Rtp.Packet.{RtpPacket, set_payload_type, set_seq, set_ssrc, clear_padding}

-- The payload's bytes, as GetPayload and GetPayloadLength give them.
abbrev pub payload_of : RtpPacket → List ℕ
payload_of p = take p.payload_len (drop p.payload p.body)

-- Both end with the padding taken off.
remove_padding : RtpPacket → RtpPacket
unfolding clear_padding
remove_padding p =
    if p.header.padding
    then record (clear_padding p) { data_len = p.data_len - p.pad_len; pad_len = 0 }
    else p

-- The memmove by two bytes up, and the number written in front.
shift_up : ℕ → ℕ → ℕ → List ℕ → List ℕ
shift_up payload n seq body =
    take payload body
    ++ (write2_bytes seq ++ (take n (drop payload body) ++ drop (payload + 2 + n) body))

-- The memmove by two bytes down; the last two bytes stay.
shift_down : ℕ → ℕ → List ℕ → List ℕ
shift_down payload n body =
    take payload body ++ (drop 2 (take n (drop payload body)) ++ drop (payload + n - 2) body)

pub rtx_mux : ℕ → ℕ → ℕ → RtpPacket → Outcome RtpPacket
unfolding set_payload_type set_ssrc set_seq remove_padding shift_up
rtx_mux payload_type ssrc seq p =
    if ltb (length p.body) (p.payload + 2 + p.payload_len)
    then fault
    else done (
        remove_padding (record (set_seq seq (set_ssrc ssrc (set_payload_type payload_type p))) {
          body = shift_up p.payload p.payload_len p.header.sequence p.body;
          payload_len = p.payload_len + 2;
          data_len = p.data_len + 2;
        }))

pub rtx_demux : ℕ → ℕ → RtpPacket → Outcome RtpPacket
unfolding set_payload_type set_ssrc set_seq remove_padding shift_down
rtx_demux ssrc payloadtype p =
    if ltb p.payload_len 2
    then throws
    else if ltb (length p.body) (p.payload + p.payload_len)
    then fault
    else (do
      replace_seq ← access (read2_bytes (drop p.payload p.body))
      done (
          remove_padding
            (record (set_ssrc ssrc (set_seq replace_seq (set_payload_type payloadtype p))) {
              body = shift_down p.payload p.payload_len p.body;
              payload_len = p.payload_len - 2;
              data_len = p.data_len - 2;
            })))

module _ (payload n v : ℕ) (body : List ℕ) (fits : payload + 2 + n ≤ length body) where
  front_length : length (take payload body) ≡ payload
  front_length = omega (arith, length-take payload body)

  part_length : length (take n (drop payload body)) ≡ n
  part_length = omega (arith, length-take n (drop payload body), length-drop payload body)

  length-shift_up : length (shift_up payload n v body) ≡ length body
  unfolding shift_up write2_bytes
  length-shift_up = omega (
    arith,
    front_length,
    part_length,
    length-drop (payload + 2 + n) body,
    length-append (take payload body)
        (v / 256 % 256 ∷ v / 1 % 256 ∷ (take n (drop payload body) ++ drop (payload + 2 + n) body)),
    length-append (take n (drop payload body)) (drop (payload + 2 + n) body),
  )

  drop-shift_up :
      drop payload (shift_up payload n v body)
      ≡ write2_bytes v ++ (take n (drop payload body) ++ drop (payload + 2 + n) body)
  unfolding shift_up
  drop-shift_up = drop-append payload (take payload body) _ front_length

  read-shift_up : v < 2 ^ 16 → read2_bytes (drop payload (shift_up payload n v body)) ≡ some v
  read-shift_up hv =
      let e : v % 2 ^ 16 ≡ v = omega arith in
      ap read2_bytes drop-shift_up ∙ read2-write2 v _ ∙ ap (λ k. some k) e

  part-shift_up :
      drop 2 (take (n + 2) (drop payload (shift_up payload n v body))) ≡ take n (drop payload body)
  unfolding write2_bytes
  part-shift_up =
      let e : n + 2 ≡ suc (suc n) = omega arith in
      rw (drop-shift_up, e) (take-append n (take n (drop payload body)) _ part_length)

  take-shift_up : take payload (shift_up payload n v body) ≡ take payload body
  unfolding shift_up
  take-shift_up = take-append payload (take payload body) _ front_length

  take-shift_down :
      take payload (shift_down payload (n + 2) (shift_up payload n v body)) ≡ take payload body
  unfolding shift_down
  take-shift_down = rw take-shift_up (take-append payload (take payload body) _ front_length)

  part-shift_down :
      take n (drop payload (shift_down payload (n + 2) (shift_up payload n v body)))
      ≡ take n (drop payload body)
  unfolding shift_down
  part-shift_down =
      rw (part-shift_up, take-shift_up, drop-append payload (take payload body) _ front_length)
        (take-append n (take n (drop payload body)) _ part_length)

-- RtxDemux on a payload that starts with the number `v`.
abbrev demuxed : ℕ → ℕ → ℕ → RtpPacket → RtpPacket
unfolding set_payload_type set_ssrc set_seq shift_down
demuxed ssrc payloadtype v p =
    remove_padding (record (set_ssrc ssrc (set_seq v (set_payload_type payloadtype p))) {
      body = shift_down p.payload p.payload_len p.body;
      payload_len = p.payload_len - 2;
      data_len = p.data_len - 2;
    })

rtx_demux-done :
    (ssrc type v : ℕ) (p : RtpPacket)
    → 2 ≤ p.payload_len
    → p.payload + p.payload_len ≤ length p.body
    → read2_bytes (drop p.payload p.body) ≡ some v
    → rtx_demux ssrc type p ≡ done (demuxed ssrc type v p)
unfolding rtx_demux
rtx_demux-done ssrc type v p h2 hl hv =
    let long : ltb p.payload_len 2 ≡ false = ground arith in
    let fits : ltb (length p.body) (p.payload + p.payload_len) ≡ false = ground arith in
    rw (long, fits, hv) refl

-- What RtxDemux should make of a packet that RtxMux was called on: the packet without its padding.
abbrev pub Restored : RtpPacket → RtpPacket → Type 0
Restored p r =
    (r.header ≡ record p.header { padding = false })
    × (payload_of r ≡ payload_of p)
    × (take p.payload r.body ≡ take p.payload p.body)
    × (r.payload ≡ p.payload)
    × (r.payload_len ≡ p.payload_len)
    × (r.data_len + (if p.header.padding then p.pad_len else 0) ≡ p.data_len)

-- RtxMux then RtxDemux with the packet's own payload type and SSRC, for a packet whose sequence number,
-- payload type and SSRC fit their fields, with two bytes of buffer behind its payload and no more padding
-- than data: both succeed, and the packet is as it was less its padding: header, payload, the bytes before
-- the payload, and both lengths. The type, SSRC and number on the retransmission stream are arbitrary.
pub rtx_demux-mux :
    (type ssrc seq : ℕ) (p : RtpPacket)
    → p.header.sequence < 2 ^ 16
    → p.header.payload_type < 128
    → p.header.ssrc < 2 ^ 32
    → p.payload + 2 + p.payload_len ≤ length p.body
    → (if p.header.padding then p.pad_len else 0) ≤ p.data_len
    → (r : RtpPacket) × ((rtx_mux type ssrc seq p >>= rtx_demux p.header.ssrc p.header.payload_type)
        ≡ done r)
      × Restored p r
unfolding rtx_mux set_payload_type set_ssrc set_seq remove_padding clear_padding demuxed
rtx_demux-mux type ssrc seq p hs ht hr hl hd =
    let fits : ltb (length p.body) (p.payload + 2 + p.payload_len) ≡ false = ground arith in
    let body = shift_up p.payload p.payload_len p.header.sequence p.body in
    let long : p.payload + (p.payload_len + 2) ≤ length body =
      omega (arith, length-shift_up p.payload p.payload_len p.header.sequence p.body hl) in
    let read = read-shift_up p.payload p.payload_len p.header.sequence p.body hl hs in
    let type_back : p.header.payload_type % 128 ≡ p.header.payload_type = omega arith in
    let seq_back : p.header.sequence % 2 ^ 16 ≡ p.header.sequence = omega arith in
    let ssrc_back : p.header.ssrc % 2 ^ 32 ≡ p.header.ssrc = omega arith in
    let len_back : p.payload_len + 2 - 2 ≡ p.payload_len = omega arith in
    let part : take (p.payload_len + 2 - 2)
          (drop p.payload (shift_down p.payload (p.payload_len + 2) body))
        ≡ payload_of p =
      rw len_back (part-shift_down p.payload p.payload_len p.header.sequence p.body hl) in
    let front = take-shift_down p.payload p.payload_len p.header.sequence p.body hl in
    let demuxes =
      λ (q : RtpPacket). rtx_demux-done p.header.ssrc p.header.payload_type p.header.sequence q in
    elim (Bool-cases p.header.padding) [
      | inl padded ↦
          let cut : (p.data_len + 2 - p.pad_len - 2) + p.pad_len ≡ p.data_len = ground arith in
          rw (fits, padded)
            (
              _,
              demuxes _ (omega arith) long read,
              (rw (type_back, seq_back, ssrc_back) refl, part, front, refl, len_back, cut),
            )
      | inr bare ↦
          let same : (p.data_len + 2 - 2) + 0 ≡ p.data_len = omega arith in
          rw (fits, bare)
            (
              _,
              demuxes _ (omega arith) long read,
              (rw (type_back, seq_back, ssrc_back) refl, part, front, refl, len_back, same),
            )
    ]
