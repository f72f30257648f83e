-- ===== src/WebSocket/Xor.antt =====
-- Exclusive or of bytes undoes itself, by evaluating both tables of 256 entries.
use cpp_streamer.Base.{ℕ, ◌<◌, ◌≡◌, refl, bit_xor, if◌then◌else◌, arith}
use cpp_streamer.Base.Bits.{agree_below, agree_below→eq}

abbrev twice : ℕ → ℕ → ℕ
twice k a = bit_xor (bit_xor a k) k

abbrev undone : ℕ → ℕ
undone k = if agree_below (twice k) (λ a. a) 256 then 1 else 0

all_undone : (k : ℕ) → k < 256 → undone k ≡ 1
unfolding agree_below
all_undone = agree_below→eq undone (λ k. 1) 256 refl

pub xor-xor : (a k : ℕ) → a < 256 → k < 256 → bit_xor (bit_xor a k) k ≡ a
xor-xor a k ha hk = agree_below→eq (twice k) (λ a. a) 256 (ground (arith, all_undone k hk)) a ha
