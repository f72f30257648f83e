-- ===== src/Utils/DataBuffer/Faults.antt =====
-- src/utils/data_buffer.hpp where it loses or overruns its bytes.
use cpp_streamer.Base.{ℕ, ◌+◌, ◌^◌, ◌≤◌, ◌<◌}
use cpp_streamer.Base.{◌≡◌, refl}
use cpp_streamer.Base.{none, some, List, [], ◌∷◌, arith}
use cpp_streamer.Base.{length}
use cpp_streamer.Utils.DataBuffer.{
  DataBuffer, new_buffer, slide, extend, append_nonempty, append_data, copy_buffer, copy_in,
  copy_out,
}
use cpp_streamer.Utils.DataBuffer.Memory.{Cells, write, slice, length-slice, slice-write_above}
use cpp_streamer.Utils.DataBuffer.Append.{IsValid, view}

-- The copy constructor copies from the start of the allocation, not from the data: where the data
-- begins at or behind its own length, every byte that the copy of a valid buffer holds is a byte of
-- fresh memory.
pub copy_buffer_junk :
    (junk : Cells) (b : DataBuffer)
    → IsValid b
    → b.data_len ≤ b.start
    → (c : DataBuffer) × (copy_buffer junk b ≡ some c)
      × (c.start ≡ b.start)
      × (c.data_len ≡ b.data_len)
      × (view c ≡ slice junk b.start b.data_len)
unfolding copy_buffer copy_in copy_out view
copy_buffer_junk junk b v h = (
  record b { mem = write junk 0 (slice b.mem 0 b.data_len); alloc = b.buffer_size + 200 },
  ground (arith, length-slice b.mem 0 b.data_len),
  refl,
  refl,
  slice-write_above junk b.start b.data_len 0 (slice b.mem 0 b.data_len)
      (omega (arith, length-slice b.mem 0 b.data_len)),
)

-- A buffer made with fewer than 200 bytes does not see that an append is too long: `buffer_size_` less
-- the reserved room wraps around, and any input of more bytes than it was made for, below 2^31, is
-- copied past the allocation.
pub append_data_small :
    (junk : Cells) (n : ℕ) (xs : List ℕ)
    → n < 200
    → n < length xs
    → length xs < 2 ^ 31
    → append_data junk (new_buffer junk n) xs ≡ none
unfolding append_data append_nonempty new_buffer extend copy_in
append_data_small junk n [] lo h hi = absurd (omega arith)
append_data_small junk n (x ∷ xs) lo h hi = ground arith

-- In a valid buffer whose data starts less than its length behind the reserved room, an append that
-- makes room by moving the data down calls `memcpy` on overlapping ranges.
pub append_data_overlap :
    (junk : Cells) (b : DataBuffer) (xs : List ℕ)
    → IsValid b
    → 0 < length xs
    → 200 < b.start
    → b.data_len < b.start
    → b.start < 200 + b.data_len
    → b.buffer_size < b.end + length xs + 200
    → b.data_len + length xs + 200 < b.buffer_size
    → append_data junk b xs ≡ none
unfolding append_data append_nonempty slide
append_data_overlap junk b [] v h0 h1 h2 h3 h4 h5 = absurd (omega arith)
append_data_overlap junk b (x ∷ xs) v h0 h1 h2 h3 h4 h5 = ground arith
