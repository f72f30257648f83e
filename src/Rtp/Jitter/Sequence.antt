-- ===== src/Rtp/Jitter/Sequence.antt =====
-- The extended sequence numbers of the jitter buffer.
use cpp_streamer.Base.{ℕ, ◌+◌, ◌-◌, ◌%◌, ◌^◌, ◌≤◌, ◌<◌}
use cpp_streamer.Base.{◌≡◌, ◌≢◌, true, false}
use cpp_streamer.Base.{arith}
use cpp_streamer.Base.{leb, if◌then◌else◌}
use cpp_streamer.Rtp.Jitter.{JitterBuffer, bad, good, update_seq}

-- The highest number seen, unwrapped.
abbrev pub highest : JitterBuffer → ℕ
highest b = b.cycles + b.max_seq

-- Whole turns, and 16-bit numbers, with room for one more turn in 32 bits.
pub record IsCounting (b : JitterBuffer) : Type 0 where
  pub turns : b.cycles % 65536 ≡ 0
  pub room : b.cycles + 65536 < 2 ^ 32
  pub max : b.max_seq < 65536

-- A buffer that counts whole turns, with room for one turn more in the 32 bits of its counter, and a
-- packet up to 2999 ahead of the highest number, across a wrap of the 16-bit numbers or not: the packet
-- gets the highest number plus that distance as its extended number, which becomes the highest, and the
-- turns stay whole.
pub update_seq_ahead :
    (seq d : ℕ) (b : JitterBuffer)
    → IsCounting b
    → d < 3000
    → (b.max_seq + d) % 65536 ≡ seq
    → (let (b', v) = update_seq seq b in
        (v ≡ good (highest b + d) false)
        × (highest b' ≡ highest b + d)
        × (b'.cycles % 65536 ≡ 0)
        × (b'.max_seq < 65536))
unfolding update_seq
update_seq_ahead seq d b c h e = ground arith

-- A late packet, up to 99 behind the highest number, gets the highest number less that distance if no
-- wrap lies in between. If one does, it gets a number one whole turn too high, ahead of every packet
-- received. In both cases the counters stay as they were.
pub update_seq_late :
    (seq d : ℕ) (b : JitterBuffer)
    → IsCounting b
    → 0 < d
    → d < 100
    → seq < 65536
    → (seq + d) % 65536 ≡ b.max_seq
    → update_seq seq b
      ≡ (b, good (if leb d b.max_seq then highest b - d else highest b + 65536 - d) false)
unfolding update_seq
update_seq_late seq d b c h0 h hs e = ground arith

-- A number 3000 to 65435 ahead of the highest that is not the one expected after an earlier jump is
-- refused, and the highest stays; its successor then restarts the count at itself.
pub update_seq_jump :
    (seq d : ℕ) (b : JitterBuffer)
    → IsCounting b
    → 3000 ≤ d
    → d < 65436
    → (b.max_seq + d) % 65536 ≡ seq
    → seq ≢ b.bad_seq
    → (let (b', v) = update_seq seq b in
        let (b2, v2) = update_seq ((seq + 1) % 65536) b' in
        (v ≡ bad)
        × (highest b' ≡ highest b)
        × (v2 ≡ good ((seq + 1) % 65536) true)
        × (highest b2 ≡ (seq + 1) % 65536))
unfolding update_seq
update_seq_jump seq d b c lo hi e ne = ground arith
