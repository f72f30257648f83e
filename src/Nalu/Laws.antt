-- ===== src/Nalu/Laws.antt =====
-- src/format/h264_h265_header.cpp: what the conversions keep.
use cpp_streamer.Base.{ℕ, zero, suc, ◌+◌, ◌*◌, ◌≤◌, ◌<◌}
use cpp_streamer.Base.{◌≡◌, refl, true, false}
use cpp_streamer.Base.{some, List, [], ◌∷◌, ◌++◌, map, append_assoc, arith}
use cpp_streamer.Base.{ltb, leb}
use cpp_streamer.Base.{length, All, length-append, take-append, drop-append}
use cpp_streamer.Base.Outcome.{done, ◌>>=◌}
use cpp_streamer.Utils.ByteStream.{write4_bytes, byte_of}
use cpp_streamer.Nalu.{with_length, with_code, avcc_unit, avcc_loop, avcc2nalus, max_len}

abbrev pub concat : List (List ℕ) → List ℕ
concat [] = []
concat (xs ∷ xss) = xs ++ concat xss

-- The bytes of units behind their lengths.
abbrev pub avcc : List (List ℕ) → List ℕ
avcc nalus = concat (map with_length nalus)

avcc_unit-with_length :
    (n tail : List ℕ)
    → length n ≤ max_len
    → avcc_unit (with_length n ++ tail) ≡ done (some (n, tail))
unfolding avcc_unit write4_bytes
avcc_unit-with_length n tail small =
    let read : byte_of (length n) 0x1000000 * 0x1000000
          + byte_of (length n) 0x10000 * 0x10000
          + byte_of (length n) 0x100 * 0x100
          + byte_of (length n) 1
        ≡ length n =
      omega arith in
    let fits : ltb max_len (length n) ≡ false = ground arith in
    let held : ltb (length (n ++ tail)) (length n) ≡ false = ground (arith, length-append n tail) in
    rw (read, fits, held, take-append (length n) n tail refl, drop-append (length n) n tail refl)
      refl

avcc_loop_unit :
    (fuel behind : ℕ) (n tail : List ℕ)
    → behind ≤ length tail
    → length n ≤ max_len
    → avcc_loop (suc fuel) behind (with_length n ++ tail)
      ≡ (avcc_loop fuel behind tail >>= (λ more. done (more.0, with_code n ∷ more.1)))
unfolding avcc_loop write4_bytes
avcc_loop_unit fuel behind n tail l small =
    let more : leb (suc (suc (suc (suc (length (n ++ tail)))))) behind ≡ false =
      ground (arith, length-append n tail) in
    rw (avcc_loop, more, avcc_unit-with_length n tail small) refl

avcc_loop_back :
    (fuel : ℕ) (nalus : List (List ℕ)) (rest : List ℕ)
    → All (λ n. length n ≤ max_len) nalus
    → length nalus < fuel
    → avcc_loop fuel (length rest) (avcc nalus ++ rest) ≡ done (true, map with_code nalus)
unfolding avcc_loop
avcc_loop_back zero nalus rest a h = absurd (omega arith)
avcc_loop_back (suc fuel) [] rest a h =
    let last : leb (length rest) (length rest) ≡ true = ground arith in rw (avcc_loop, last) refl
avcc_loop_back (suc fuel) (n ∷ nalus) rest (small, a) h =
    rw
      (
        append_assoc (with_length n) (avcc nalus) rest,
        avcc_loop_unit fuel (length rest) n (avcc nalus ++ rest)
            (omega (arith, length-append (avcc nalus) rest)) small,
        avcc_loop_back fuel nalus rest a (omega arith),
      )
      refl

length-avcc : (nalus : List (List ℕ)) → 4 * length nalus ≤ length (avcc nalus)
unfolding write4_bytes
length-avcc [] = omega arith
length-avcc (n ∷ nalus) =
    omega (arith, length-avcc nalus, length-append (with_length n) (avcc nalus))

-- Avcc2Nalus on one unit or more, each of at most 10^7 bytes and written behind its length, succeeds and
-- returns these units behind start codes, whatever memory follows.
pub avcc2nalus-avcc :
    (nalus : List (List ℕ)) (rest : List ℕ)
    → 0 < length nalus
    → All (λ n. length n ≤ max_len) nalus
    → avcc2nalus (length rest) (avcc nalus ++ rest) ≡ done (true, map with_code nalus)
unfolding avcc2nalus
avcc2nalus-avcc nalus rest h a =
    let size : 4 * length nalus ≤ length (avcc nalus) = length-avcc nalus in
    let long : ltb (length (avcc nalus ++ rest)) (length rest + 4) ≡ false =
      ground (arith, length-append (avcc nalus) rest) in
    rw (avcc2nalus, long)
      (avcc_loop_back (suc (length (avcc nalus ++ rest))) nalus rest a
        (omega (arith, length-append (avcc nalus) rest)))
