-- ===== src/Rtp/Jitter/Stream.antt =====
-- The jitter buffer on a stream of packets that come in order.
use cpp_streamer.Base.{ℕ, ◌+◌, ◌-◌, ◌%◌, ◌^◌, ◌<◌}
use cpp_streamer.Base.{◌≡◌, refl, sym, ap, ◌∙◌, true, false}
use cpp_streamer.Base.{
  List, [], ◌∷◌, ◌++◌, arith, length, ltb, if◌then◌else◌, ◌==◌, Bool-cases, inl, inr,
}
use cpp_streamer.Rtp.Jitter.{
  JitterBuffer, init_seq, PacketInfo, Event, drain, output, good, update_seq, place_packet,
  take_verdict, input_rtp_packet,
}
use cpp_streamer.Rtp.Jitter.Sequence.{highest}
use cpp_streamer.Rtp.Jitter.Order.{outputs}

-- Started, with nothing waiting, and the highest number is the last one output.
pub record IsSettled (b : JitterBuffer) : Type 0 where
  pub started : b.init_flag ≡ true
  pub turns : b.cycles % 65536 ≡ 0
  pub max : b.max_seq < 65536
  pub last : b.output_seq ≡ highest b
  pub empty : b.packets ≡ []

-- Packets, each with the time at which it comes and its body, numbered from `s` on.
pub feed : ℕ → List (ℕ × List ℕ) → JitterBuffer → JitterBuffer × List Event
unfolding input_rtp_packet
feed s [] b = (b, [])
feed s ((now, body) ∷ ps) b =
    let (b1, first) = input_rtp_packet now (s % 65536) body b in
    let (b2, more) = feed (s + 1) ps b1 in (b2, first ++ more)

abbrev pub numbered : ℕ → List (ℕ × List ℕ) → List PacketInfo
numbered s [] = []
numbered s ((now, body) ∷ ps) =
    record { extend_seq = s; local_ms = now; body = body } ∷ numbered (s + 1) ps

-- The turns counted after a packet with the 16-bit number `n`.
abbrev turns_after : ℕ → JitterBuffer → ℕ
turns_after n b = if ltb n b.max_seq then (b.cycles + 65536) % 2 ^ 32 else b.cycles

turns_next :
    (s : ℕ) (b : JitterBuffer)
    → IsSettled b
    → s ≡ highest b + 1
    → s + 65536 < 2 ^ 32
    → (turns_after (s % 65536) b + s % 65536 ≡ s) × (turns_after (s % 65536) b % 65536 ≡ 0)
turns_next s b i e room = ground arith

update_seq_next :
    (s : ℕ) (b : JitterBuffer)
    → IsSettled b
    → s ≡ highest b + 1
    → s + 65536 < 2 ^ 32
    → update_seq (s % 65536) b
      ≡ (record b { cycles = turns_after (s % 65536) b; max_seq = s % 65536 }, good s false)
unfolding update_seq
update_seq_next s b i e room =
    let near : ltb ((s % 65536 + 65536 - b.max_seq) % 65536) 3000 ≡ true = ground arith in
    let (all, whole) = turns_next s b i e room in
    let ext : (turns_after (s % 65536) b + s % 65536) % 2 ^ 32 ≡ s = omega arith in
    rw (update_seq, near)
      (ap
        (λ k. (record b { cycles = turns_after (s % 65536) b; max_seq = s % 65536 }, good k false))
        ext)

place_packet_alone :
    (now : ℕ) (p : PacketInfo) (b : JitterBuffer)
    → b.output_seq + 1 ≡ p.extend_seq
    → b.packets ≡ []
    → place_packet now p false b
      ≡ (record b { output_seq = p.extend_seq; packets = [] }, output p ∷ [])
unfolding place_packet drain
place_packet_alone now p b e empty =
    let follows : (b.output_seq + 1 == p.extend_seq) ≡ true = ground arith in
    rw (place_packet, follows)
      (ap
        (λ m.
          let (last, kept, events) = drain p.extend_seq m in
          (record b { output_seq = last; packets = kept }, output p ∷ events))
        empty)

input_next :
    (now s : ℕ) (body : List ℕ) (b : JitterBuffer)
    → IsSettled b
    → s ≡ highest b + 1
    → s + 65536 < 2 ^ 32
    → input_rtp_packet now (s % 65536) body b ≡ (
      record b {
        cycles = turns_after (s % 65536) b;
        max_seq = s % 65536;
        output_seq = s;
        packets = [];
      },
      output (record { extend_seq = s; local_ms = now; body = body }) ∷ [],
    )
unfolding input_rtp_packet take_verdict
input_next now s body b i e room =
    let start : b.init_flag ≡ true = i.started in
    ap
      (λ c.
        if c
        then take_verdict now body (update_seq (s % 65536) b)
        else place_packet now (record { extend_seq = s % 65536; local_ms = now; body = body }) true
            (init_seq (s % 65536) (record b { init_flag = true })))
      start
    ∙ (ap (take_verdict now body) (update_seq_next s b i e room)
        ∙ place_packet_alone now (record { extend_seq = s; local_ms = now; body = body })
            (record b { cycles = turns_after (s % 65536) b; max_seq = s % 65536 }) (omega arith)
            i.empty)

turns_after-IsSettled :
    (s : ℕ) (b : JitterBuffer)
    → IsSettled b
    → s ≡ highest b + 1
    → s + 65536 < 2 ^ 32
    → IsSettled (record b {
      cycles = turns_after (s % 65536) b;
      max_seq = s % 65536;
      output_seq = s;
      packets = [];
    })
turns_after-IsSettled s b i e room =
    let (all, whole) = turns_next s b i e room in
    record { started = i.started; turns = whole; max = omega arith; last = sym all; empty = refl }

-- The first packet starts the count.
pub input_first :
    (now seq : ℕ) (body : List ℕ) (b : JitterBuffer)
    → b.init_flag ≡ false
    → b.packets ≡ []
    → seq < 65536
    → IsSettled (input_rtp_packet now seq body b).0
      × (highest (input_rtp_packet now seq body b).0 ≡ seq)
unfolding input_rtp_packet place_packet
input_first now seq body b off empty h =
    let zero_turns : 0 % 65536 ≡ 0 = refl in
    elim (Bool-cases (ltb (b.report_lost_ts + 500) (now + 1))) [
      | inl told ↦
          rw (input_rtp_packet, off, place_packet, told)
            (
              record {
                started = refl;
                turns = zero_turns;
                max = h;
                last = omega arith;
                empty = empty;
              },
              omega arith,
            )
      | inr quiet ↦
          rw (input_rtp_packet, off, place_packet, quiet)
            (
              record {
                started = refl;
                turns = zero_turns;
                max = h;
                last = omega arith;
                empty = empty;
              },
              omega arith,
            )
    ]

-- Packets that come in order after the first: on a started buffer with nothing waiting, whose last output
-- is the highest number, packets numbered one by one from the next on, of which InputRtpPacket sees the low
-- 16 bits, across any number of wraps while the numbers stay below 2^32 - 2^16, are all output, each at once
-- and in order, whatever the times at which they come; no loss is reported, and nothing waits at the end.
pub feed-outputs :
    (ps : List (ℕ × List ℕ)) (s : ℕ) (b : JitterBuffer)
    → IsSettled b
    → s ≡ highest b + 1
    → s + length ps + 65536 < 2 ^ 32
    → (let (b', events) = feed s ps b in
        (events ≡ outputs (numbered s ps)) × IsSettled b' × (b'.output_seq + 1 ≡ s + length ps))
unfolding feed
feed-outputs [] s b i e room = (refl, i, omega (arith, i.last))
feed-outputs ((now, body) ∷ ps) s b i e room =
    let step = input_next now s body b i e (omega arith) in
    let settled = turns_after-IsSettled s b i e (omega arith) in
    let (told, i', last) =
      feed-outputs ps (s + 1) _ settled (omega (arith, settled.last)) (omega arith) in
    rw (feed, step)
      (
        ap (◌∷◌ (output (record { extend_seq = s; local_ms = now; body = body }))) told,
        i',
        omega (arith, last),
      )
