-- ===== src/Rtmp/RoundTrip/Pieces.antt =====
-- src/net/rtmp/chunk_stream.cpp: how WriteDataByChunkStream cuts a message up.
use cpp_streamer.Base.{ℕ, ◌+◌, ◌-◌, ◌*◌, ◌/◌, ◌%◌, ◌≤◌, ◌<◌, min}
use cpp_streamer.Base.{◌≡◌, ap, ◌≢◌, inl, inr}
use cpp_streamer.Base.{arith}
use cpp_streamer.Base.{ltb, if◌then◌else◌, ltb→lt, Bool-cases}
use cpp_streamer.Rtmp.Writer.{chunk_count, chunk_len}
use native.Mathlib.Nat.{div-add-mod, mod-lt}

pub mul_mono : (a b n : ℕ) → a ≤ b → a * n ≤ b * n
mul_mono a b n h = grind arith

-- The length of a round's piece, and which round is the last.
pub record Piece (size total index : ℕ) : Type 0 where
  pub len : chunk_len size total index ≡ min size (total - index * size)
  pub more : index * size < total
  pub last : index + 1 ≡ chunk_count size total → total ≤ index * size + size
  pub inner : index + 1 < chunk_count size total → index * size + size < total

-- The same with the quotient `q` and the remainder `r` as variables.
record Cut (size total index count r : ℕ) : Type 0 where
  whole : index + 1 ≢ count → (size + index * size < total)
  tail :
      index + 1 ≡ count
      → (index * size < total)
        × (total ≤ index * size + size)
        × ((if ltb 0 r then r else size) ≡ total - index * size)

Cut-uneven :
    (size total index q r : ℕ)
    → size * q + r ≡ total
    → 0 < r
    → r < size
    → index < q + 1
    → Cut size total index (q + 1) r
Cut-uneven size total index q r e h0 b hi = record {
  whole = λ h. ground (arith, mul_mono (index + 1) q size);
  tail = λ h.
      let same : index * size ≡ q * size = ap (λ i. i * size) (omega arith) in
      (omega arith, omega arith, ground arith);
}

Cut-even :
    (size total index q : ℕ) → size * q ≡ total → 0 < size → index < q → Cut size total index q 0
Cut-even size total index q e b hi = record {
  whole = λ h. ground (arith, mul_mono (index + 2) q size);
  tail = λ h.
      let same : (index + 1) * size ≡ q * size = ap (λ i. i * size) (omega arith) in
      (omega arith, omega arith, ground arith);
}

chunk_Cut :
    (size total index : ℕ)
    → 0 < size
    → index < chunk_count size total
    → Cut size total index (chunk_count size total) (total % size)
unfolding chunk_count
chunk_Cut size total index hs hi = elim (Bool-cases (ltb 0 (total % size))) [
  | inl uneven ↦ rw uneven (
      Cut-uneven size total index (total / size) (total % size) (div-add-mod total size)
        (ltb→lt _ _ uneven) (mod-lt total hs) (rw uneven at hi))
  | inr even ↦ rw even (
      let zero_rest : total % size ≡ 0 = ground arith in
      rw zero_rest (
        Cut-even size total index (total / size) (omega (arith, div-add-mod total size)) hs
          (rw even at hi)))
]

pub Piece_lem :
    (size total index : ℕ) → 0 < size → index < chunk_count size total → Piece size total index
unfolding chunk_len
Piece_lem size total index hs hi =
    let cut : Cut size total index (chunk_count size total) (total % size) =
      chunk_Cut size total index hs hi in
    record {
      len = ground (arith, cut.whole, cut.tail);
      more = ground (arith, cut.whole, cut.tail);
      last = λ h. (cut.tail h).1;
      inner = λ h. ground (arith, cut.whole);
    }
