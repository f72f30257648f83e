-- ===== src/Rtp/FbNack/Laws.antt =====
-- What a retransmission request asks for, once it has been written and read.
use cpp_streamer.Base.{ℕ, zero, suc, ◌+◌, ◌-◌, ◌/◌, ◌%◌, ◌^◌, ◌≤◌, ◌<◌, bit_or}
use cpp_streamer.Base.{◌≡◌, refl, ap, ◌∙◌, true, false}
use cpp_streamer.Base.{none, some, List, [], ◌∷◌, ◌++◌, arith}
use cpp_streamer.Base.{ltb, leb, ◌==◌}
use cpp_streamer.Base.{length}
use native.Mathlib.Nat.{pow-suc}
use cpp_streamer.Base.Bits.{agree_below, agree_below→eq}
use cpp_streamer.Utils.ByteStream.{write2_bytes}
use cpp_streamer.Rtp.FbNack.{
  FbNack, lost_bit, lost_bitmap, set_length, insert_block, insert_seqs, insert_seq_list, lost_from,
  get_lost_seqs,
}

-- A bitmap with the one bit `k`.
pow_pos : (k : ℕ) → 0 < 2 ^ k
pow_pos zero = omega arith
pow_pos (suc k) = omega (arith, pow-suc 2 k, pow_pos k)

lost_from_none : (fuel seq : ℕ) → lost_from fuel 0 seq ≡ []
unfolding lost_from
lost_from_none zero seq = refl
lost_from_none (suc fuel) seq = refl

lost_from_bit :
    (fuel k seq : ℕ)
    → k < fuel
    → seq < 65536
    → lost_from fuel (2 ^ k) seq ≡ ((seq + k) % 65536) ∷ []
unfolding lost_from
lost_from_bit zero k seq h hs = absurd (omega arith)
lost_from_bit (suc fuel) zero seq h hs =
    let e : (seq + 0) % 65536 ≡ seq = omega arith in rw (e, lost_from_none fuel ((seq + 1) % 65536))
lost_from_bit (suc fuel) (suc k) seq h hs =
    let half : 2 ^ suc k / 2 ≡ 2 ^ k = omega (arith, pow-suc 2 k) in
    let even : 2 ^ suc k % 2 ≡ 0 = omega (arith, pow-suc 2 k) in
    let some_bit : (2 ^ suc k == 0) ≡ false = ground (arith, pow-suc 2 k, pow_pos k) in
    let there : ((seq + 1) % 65536 + k) % 65536 ≡ (seq + suc k) % 65536 = omega arith in
    rw (
      half,
      some_bit,
      even,
      lost_from_bit fuel k ((seq + 1) % 65536) (omega arith) (omega arith),
      there,
    )

zero_or : (d : ℕ) → d < 17 → bit_or 0 (2 ^ d % 65536) % 65536 ≡ 2 ^ d % 65536
unfolding agree_below
zero_or = agree_below→eq _ _ 17 refl

small_pow : (d : ℕ) → d < 16 → 2 ^ d % 65536 ≡ 2 ^ d
unfolding agree_below
small_pow = agree_below→eq _ _ 16 refl

-- The bitmap of a block for `a` and the packet `d` behind it.
bitmap_pair : (a d : ℕ) → 0 < d → d ≤ 16 → lost_bitmap a 0 ((a + d) ∷ []) ≡ some (2 ^ (16 - d))
unfolding lost_bitmap lost_bit
bitmap_pair a d lo hi =
    let gap : a + d - a ≡ d = omega arith in
    let above : leb a (a + d) ≡ true = ground arith in
    let near : leb d 16 ≡ true = ground arith in
    rw (above, gap, near, zero_or (16 - d) (omega arith), small_pow (16 - d) (omega arith))

-- A block that there is room for.
abbrev pub with_block : ℕ → ℕ → FbNack → FbNack
with_block packet_id bitmap p = record {
  bytes = set_length (p.bytes ++ (write2_bytes packet_id ++ write2_bytes bitmap));
  blocks = p.blocks ++ (packet_id, bitmap) ∷ [];
}

block_of :
    (packet_id bitmap : ℕ) (seqs : List ℕ) (p : FbNack)
    → length p.bytes ≤ 1496
    → lost_bitmap packet_id 0 seqs ≡ some bitmap
    → insert_block packet_id seqs p ≡ some (with_block packet_id bitmap p)
unfolding insert_block
block_of packet_id bitmap seqs p room e = ground arith

pub insert_pair :
    (a d : ℕ) (p : FbNack)
    → 0 < d
    → d ≤ 16
    → length p.bytes ≤ 1496
    → insert_seq_list (a ∷ (a + d) ∷ []) p ≡ some (with_block a (2 ^ (16 - d)) p)
unfolding insert_seq_list
insert_pair a d p lo hi room =
    let near : ltb (a + 16) (a + d) ≡ false = ground arith in
    rw (near, insert_seqs) (block_of a (2 ^ (16 - d)) ((a + d) ∷ []) p room (bitmap_pair a d lo hi))

pub get_lost_seqs_pair :
    (a d : ℕ)
    → a < 65536
    → 0 < d
    → d ≤ 16
    → get_lost_seqs ((a, 2 ^ (16 - d)) ∷ []) ≡ a ∷ ((a + 17 - d) % 65536) ∷ []
unfolding get_lost_seqs
get_lost_seqs_pair a d ha lo hi =
    let there : ((a + 1) % 65536 + (16 - d)) % 65536 ≡ (a + 17 - d) % 65536 = omega arith in
    let bits = lost_from_bit 16 (16 - d) ((a + 1) % 65536) (omega arith) (omega arith) in
    ap (λ l. a ∷ l ++ []) bits ∙ ap (λ k. a ∷ k ∷ []) there

-- A request for one lost packet is read as that.
pub get_lost_seqs_one :
    (a : ℕ) (p : FbNack)
    → length p.bytes ≤ 1496
    → p.blocks ≡ []
    → (q : FbNack) × (insert_seq_list (a ∷ []) p ≡ some q) × (get_lost_seqs q.blocks ≡ a ∷ [])
unfolding insert_seq_list get_lost_seqs lost_bitmap
get_lost_seqs_one a p room e =
    (with_block a 0 p, block_of a 0 [] p room refl, ap (λ l. get_lost_seqs (l ++ (a, 0) ∷ [])) e)

-- Lost packets more than 16 apart: the block of the first takes in the next one before it is closed,
-- and its bit is a shift by a negative number.
pub insert_seq_list_far :
    (a b : ℕ) (seqs : List ℕ) (p : FbNack) → a + 16 < b → insert_seq_list (a ∷ b ∷ seqs) p ≡ none
unfolding insert_seq_list insert_block
insert_seq_list_far a b seqs p h = ground arith
