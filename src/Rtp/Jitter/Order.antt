-- ===== src/Rtp/Jitter/Order.antt =====
-- What the jitter buffer puts out when a packet comes.
use cpp_streamer.Base.{ℕ, ◌+◌, ◌≤◌}
use cpp_streamer.Base.{◌≡◌, refl, ap, ◌≢◌, inl, inr, true, false}
use cpp_streamer.Base.{List, [], ◌∷◌, ◌++◌, arith}
use cpp_streamer.Base.{◌==◌, Bool-cases}
use cpp_streamer.Base.{length}
use cpp_streamer.Rtp.Jitter.{JitterBuffer, PacketInfo, Event, output, drain, place_packet}

abbrev pub outputs : List PacketInfo → List Event
outputs [] = []
outputs (p ∷ m) = output p ∷ outputs m

-- The packets continue the numbering after `next`.
abbrev pub Continues : ℕ → List PacketInfo → Type 0
Continues next [] = Unit {0}
Continues next (p ∷ m) = (p.extend_seq ≡ next + 1) × Continues p.extend_seq m

-- The first packet does not.
abbrev pub Stops : ℕ → List PacketInfo → Type 0
Stops next [] = Unit {0}
Stops next (p ∷ m) = p.extend_seq ≢ next + 1

-- The front of the map that continues the numbering, and the rest.
pub record Drained (next : ℕ) (m : List PacketInfo) (last : ℕ) (kept : List PacketInfo)
    (events : List Event) : Type 0 where
  pub taken : List PacketInfo
  pub all : taken ++ kept ≡ m
  pub told : events ≡ outputs taken
  pub run : Continues next taken
  pub reached : last ≡ next + length taken
  pub stops : Stops last kept

drain_cons :
    (next : ℕ) (p : PacketInfo) (m : List PacketInfo) (last : ℕ) (kept : List PacketInfo)
    (events : List Event)
    → p.extend_seq ≡ next + 1
    → Drained p.extend_seq m last kept events
    → Drained next (p ∷ m) last kept (output p ∷ events)
drain_cons next p m last kept events e d = record {
  taken = p ∷ d.taken;
  all = ap (◌∷◌ p) d.all;
  told = ap (◌∷◌ (output p)) d.told;
  run = (e, d.run);
  reached = omega (arith, d.reached);
  stops = d.stops;
}

drain-Drained :
    (next : ℕ) (m : List PacketInfo)
    → (let (last, kept, events) = drain next m in Drained next m last kept events)
unfolding drain
drain-Drained next [] = record {
  taken = [];
  all = refl;
  told = refl;
  run = tt;
  reached = omega arith;
  stops = tt;
}
drain-Drained next (p ∷ m) = elim (Bool-cases (next + 1 == p.extend_seq)) [
  | inl follows ↦
      rw follows (drain_cons next p m _ _ _ (ground arith) (drain-Drained p.extend_seq m))
  | inr apart ↦ rw apart (record {
    taken = [];
    all = refl;
    told = refl;
    run = tt;
    reached = omega arith;
    stops = ground arith;
  })
]

-- The packet that follows the last one output is output at once, and after it every waiting packet
-- whose number goes on from there, in order and without a gap, up to the first gap; the packets behind
-- the gap stay as they were.
pub place_packet_next :
    (now : ℕ) (p : PacketInfo) (b : JitterBuffer)
    → p.extend_seq ≡ b.output_seq + 1
    → (let (b', events) = place_packet now p false b in
        (taken : List PacketInfo) × (taken ++ b'.packets ≡ b.packets)
        × (events ≡ outputs (p ∷ taken))
        × Continues b.output_seq (p ∷ taken)
        × (b'.output_seq ≡ b.output_seq + length (p ∷ taken))
        × Stops b'.output_seq b'.packets)
unfolding place_packet
place_packet_next now p b e =
    let d = drain-Drained p.extend_seq b.packets in
    let follows : (b.output_seq + 1 == p.extend_seq) ≡ true = ground arith in
    rw follows
      (d.taken, d.all, ap (◌∷◌ (output p)) d.told, (e, d.run), omega (arith, d.reached), d.stops)

-- A packet that is not ahead of the last one output is dropped: nothing is output, and the buffer
-- stays as it was.
pub place_packet_old :
    (now : ℕ) (p : PacketInfo) (b : JitterBuffer)
    → p.extend_seq ≤ b.output_seq
    → place_packet now p false b ≡ (b, [])
unfolding place_packet
place_packet_old now p b h = ground arith
