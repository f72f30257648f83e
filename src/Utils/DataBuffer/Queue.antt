-- ===== src/Utils/DataBuffer/Queue.antt =====
-- src/utils/data_buffer.hpp as a byte queue: what the constructor, ConsumeData and Reset do to the bytes
-- between `start_` and `end_`.
use cpp_streamer.Base.{ℕ, zero, suc, ◌+◌, ◌-◌, ◌^◌, ◌≤◌, ◌<◌}
use cpp_streamer.Base.{◌≡◌, refl, inl, inr}
use cpp_streamer.Base.{none, some, [], ◌++◌, arith}
use cpp_streamer.Base.{ltb, leb, if◌then◌else◌, ltb→lt, Bool-cases}
use cpp_streamer.Base.{length, drop}
use cpp_streamer.Utils.DataBuffer.{DataBuffer, pos, negsuc, new_buffer, consume_data, reset}
use cpp_streamer.Utils.DataBuffer.Memory.{Cells, slice, length-slice, slice-append}
use cpp_streamer.Utils.DataBuffer.Append.{view, IsValid, CanSlide}

-- A fresh buffer of at least 200 and fewer than 2^30 bytes is valid, can slide, and holds nothing.
pub new_buffer-IsValid :
    (junk : Cells) (n : ℕ)
    → 200 ≤ n
    → n < 2 ^ 30
    → IsValid (new_buffer junk n) × CanSlide (new_buffer junk n) × (view (new_buffer junk n) ≡ [])
unfolding new_buffer view slice
new_buffer-IsValid junk n lo hi = (omega arith, inr (inl (omega arith)), refl)

drop-slice :
    (m : Cells) (off n p k j : ℕ) → off + n ≡ p → n + j ≡ k → drop n (slice m off k) ≡ slice m p j
unfolding slice
drop-slice m off zero p k j h e =
    let e' : k ≡ j = omega arith in let h' : off ≡ p = omega arith in ground arith
drop-slice m off (suc n) p zero j h e = absurd (omega arith)
drop-slice m off (suc n) p (suc k) j h e =
    drop-slice m (suc off) n p k j (omega arith) (omega arith)

-- ConsumeData of `n` bytes of a valid buffer leaves it valid. If that many are held it drops them from
-- the front and returns the new front; if not, it changes none and returns nullptr.
pub consume_data-view :
    (b : DataBuffer) (n : ℕ)
    → IsValid b
    → (let (b', p) = consume_data b (pos n) in
        IsValid b'
        × (view b' ≡ (if leb n (length (view b)) then drop n (view b) else view b))
        × (p ≡ (if leb n (length (view b)) then some b'.start else none)))
unfolding consume_data view
consume_data-view b n v = elim (Bool-cases (ltb b.data_len n)) [
  | inl short ↦ rw short (
    v,
    ground (arith, length-slice b.mem b.start b.data_len),
    ground (arith, length-slice b.mem b.start b.data_len),
  )
  | inr enough ↦ rw enough (
      let le : n ≤ b.data_len = ground arith in
      (
        omega arith,
        ground (
          arith,
          length-slice b.mem b.start b.data_len,
          drop-slice b.mem b.start n (b.start + n) b.data_len (b.data_len - n),
        ),
        ground (arith, length-slice b.mem b.start b.data_len),
      ))
]

-- ConsumeData of a negative length -(n + 1) that the room before the data covers puts that many bytes
-- of the room before the bytes held, and leaves the buffer valid.
pub consume_data_back :
    (b : DataBuffer) (n : ℕ)
    → IsValid b
    → n + 1 ≤ b.start
    → (let b' = (consume_data b (negsuc n)).0 in
        IsValid b'
        × (b'.start + (n + 1) ≡ b.start)
        × (view b' ≡ slice b.mem b'.start (n + 1) ++ view b))
unfolding consume_data view
consume_data_back b n v h = elim (Bool-cases (ltb b.start (n + 1))) [
  | inl short ↦ absurd (omega (arith, ltb→lt _ _ short))
  | inr enough ↦ rw enough (
    omega arith,
    omega arith,
    slice-append b.mem (b.start - (n + 1)) (n + 1) b.data_len b.start (b.data_len + (n + 1))
        (omega arith) (omega arith),
  )
]

-- Reset of a valid buffer leaves it valid, able to slide, and empty.
pub reset-view :
    (b : DataBuffer) → IsValid b → IsValid (reset b) × CanSlide (reset b) × (view (reset b) ≡ [])
unfolding reset view slice
reset-view b v = (omega arith, inr (inl (omega arith)), refl)
