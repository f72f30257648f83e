-- ===== src/Rtp/Seq.antt =====
-- The order of 16-bit sequence numbers in src/net/rtprtcp/rtprtcp_pub.hpp.
mod Tests
use cpp_streamer.Base.{
  ℕ, zero, suc, ◌+◌, ◌-◌, ◌*◌, ◌/◌, ◌%◌, ◌^◌, ◌≤◌, ◌<◌, min, bit_and, bit_or, bit_xor,
}
use cpp_streamer.Base.{
  ◌≡◌, refl, sym, ap, ◌∙◌, ◌≢◌, ◌⊎◌, inl, inr, Bool, true, false, not, ◌&&◌, ◌||◌,
}
use cpp_streamer.Base.{
  Option, none, some, List, [], ◌∷◌, ◌++◌, map, append_assoc, append-nil, arith,
}
use cpp_streamer.Base.{
  ltb, leb, ◌==◌, if◌then◌else◌, ◌>>=◌, ltb→lt, lt→ltb, leb→le, Bool-cases, IsByte,
}
use cpp_streamer.Base.{length, get_elem?, take, drop, All, length-append, length-take, length-drop}
use cpp_streamer.Base.{take-append-drop, take-append, drop-append, take-all, drop-drop, All-append}

-- SEQUENCE_MAX / 2
abbrev half_range : ℕ
half_range = 65535 / 2

unfoldable pub seq_lower_than : ℕ → ℕ → Bool
seq_lower_than seq1 seq2 =
    if ltb seq2 seq1 && ltb half_range (seq1 - seq2)
    then true
    else if ltb seq1 seq2 && leb (seq2 - seq1) half_range
    then true
    else false

unfoldable pub seq_higher_than : ℕ → ℕ → Bool
unfolding seq_lower_than
seq_higher_than seq1 seq2 = if seq1 == seq2 then false else not (seq_lower_than seq1 seq2)

-- How far `seq2` is ahead of `seq1` on the circle of 65536 numbers.
abbrev pub ahead : ℕ → ℕ → ℕ
ahead seq1 seq2 = (seq2 + 65536 - seq1) % 65536

-- On 16-bit numbers SeqLowerThan says whether the second is 1 to 32768 ahead of the first on the
-- circle, the distance 32768 counting only where the first is the larger number.
pub seq_lower_than-ahead :
    (a b : ℕ)
    → a < 65536
    → b < 65536
    → seq_lower_than a b
      ≡ (ltb 0 (ahead a b) && (ltb (ahead a b) 32768 || (ahead a b == 32768 && ltb b a)))
unfolding seq_lower_than
seq_lower_than-ahead a b ha hb = ground arith

-- Of two different 16-bit numbers exactly one is lower, SeqHigherThan is SeqLowerThan with the numbers
-- exchanged, and no number is lower than itself.
pub seq_trichotomy :
    (a b : ℕ)
    → a < 65536
    → b < 65536
    → (seq_higher_than a b ≡ seq_lower_than b a)
      × (seq_lower_than a b ≡ (if a == b then false else not (seq_lower_than b a)))
unfolding seq_higher_than
seq_trichotomy a b ha hb = (ground arith, ground arith)
