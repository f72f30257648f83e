-- ===== src/Utils/DataBuffer.antt =====
-- src/utils/data_buffer.hpp: a growable byte buffer with room reserved before the data.
-- `mem` is what `buffer_` points to, `alloc` the number of bytes allocated there. What fresh memory
-- holds is a parameter, `junk`. `none` is undefined behaviour: an access outside the allocation, a
-- `memcpy` between overlapping ranges, or an `int` that overflows.
pub mod Append
pub mod Memory
pub mod Queue
pub mod Faults
mod Tests
use cpp_streamer.Base.{ℕ, zero, suc, ◌+◌, ◌-◌, ◌*◌, ◌%◌, ◌^◌, ltb, leb, if◌then◌else◌, ◌>>=◌}
use cpp_streamer.Base.{Bool, true, false, ◌&&◌, ◌||◌, Option, none, some, List, [], ◌∷◌, length}
use Memory.{Cells, write, slice}

-- PRE_RESERVE_HEADER_SIZE and EXTRA_LEN
abbrev pub pre_reserve_header_size : ℕ
pre_reserve_header_size = 200

abbrev pub extra_len : ℕ
extra_len = 10 * 1024

pub record DataBuffer : Type 0 where
  pub mem : Cells
  pub alloc : ℕ
  pub buffer_size : ℕ
  pub data_len : ℕ
  pub start : ℕ
  pub end : ℕ
  pub sent_flag : Bool
  pub dst_ip : List ℕ
  pub dst_port : ℕ

-- An `int` argument, which may be negative: `negsuc n` is -(n + 1).
pub data ℤ : Type 0 where
  pos negsuc : ℕ → ℤ

-- DataBuffer(size_t data_size); `memset` clears the first `data_size` bytes.
unfoldable pub new_buffer : Cells → ℕ → DataBuffer
new_buffer junk data_size = record {
  mem = λ a. if ltb a data_size then 0 else junk a;
  alloc = data_size + pre_reserve_header_size;
  buffer_size = data_size;
  data_len = 0;
  start = pre_reserve_header_size;
  end = pre_reserve_header_size;
  sent_flag = false;
  dst_ip = [];
  dst_port = 0;
}

-- memcpy(buffer_ + off, input, len)
unfoldable pub copy_in : ℕ → Cells → ℕ → List ℕ → Option Cells
copy_in alloc m off input =
    if leb (off + length input) alloc then some (write m off input) else none

-- The `len` bytes at `off`, if they lie in the allocation.
unfoldable pub copy_out : ℕ → Cells → ℕ → ℕ → Option (List ℕ)
copy_out alloc m off len = if leb (off + len) alloc then some (slice m off len) else none

-- DataBuffer(const DataBuffer& input): the bytes copied are the first `data_len_` of the allocation.
pub copy_buffer : Cells → DataBuffer → Option DataBuffer
unfolding copy_in copy_out
copy_buffer junk input = do
  bytes ← copy_out input.alloc input.mem 0 input.data_len
  m ← copy_in (input.buffer_size + pre_reserve_header_size) junk 0 bytes
  some (record input { mem = m; alloc = input.buffer_size + pre_reserve_header_size })

unfoldable pub get_new_size : ℕ → ℕ
get_new_size n =
    if leb n (50 * 1024)
    then 50 * 1024
    else if leb n (100 * 1024)
    then 100 * 1024
    else if leb n (200 * 1024)
    then 200 * 1024
    else if leb n (500 * 1024)
    then 500 * 1024
    else n + 10 * 1024

-- Two ranges of `len` bytes share none.
abbrev pub disjoint : ℕ → ℕ → ℕ → Bool
disjoint a b len = leb (a + len) b || leb (b + len) a

-- The branch that moves to a new allocation.
unfoldable pub grow : Cells → DataBuffer → List ℕ → Option DataBuffer
grow junk b input =
    let new_len = get_new_size (b.data_len + length input + extra_len) in
    if ltb new_len (2 ^ 31)
    then (do
      held ← copy_out b.alloc b.mem b.start b.data_len
      m ← copy_in new_len junk pre_reserve_header_size held
      m' ← copy_in new_len m (pre_reserve_header_size + b.data_len) input
      some (record b {
        mem = m';
        alloc = new_len;
        buffer_size = new_len;
        data_len = b.data_len + length input;
        start = pre_reserve_header_size;
        end = pre_reserve_header_size + (b.data_len + length input);
      }))
    else none

-- The branch that moves the data to the front of the same allocation, through a temporary copy when
-- `data_len_ >= start_`, and else by one `memcpy`.
unfoldable pub slide : DataBuffer → List ℕ → Option DataBuffer
slide b input =
    if leb b.start b.data_len || disjoint pre_reserve_header_size b.start b.data_len
    then (do
      held ← copy_out b.alloc b.mem b.start b.data_len
      m ← copy_in b.alloc b.mem pre_reserve_header_size held
      m' ← copy_in b.alloc m (pre_reserve_header_size + b.data_len) input
      some (record b {
        mem = m';
        data_len = b.data_len + length input;
        start = pre_reserve_header_size;
        end = pre_reserve_header_size + (b.data_len + length input);
      }))
    else none

unfoldable pub extend : DataBuffer → List ℕ → Option DataBuffer
extend b input = do
  m ← copy_in b.alloc b.mem b.end input
  some (record b { mem = m; data_len = b.data_len + length input; end = b.end + length input })

-- `buffer_size_ - PRE_RESERVE_HEADER_SIZE`, in `size_t`.
abbrev pub usable : DataBuffer → ℕ
usable b = (b.buffer_size + 2 ^ 64 - pre_reserve_header_size) % 2 ^ 64

-- Which way AppendData takes, by its two tests.
unfoldable pub append_nonempty : Cells → DataBuffer → List ℕ → Option DataBuffer
append_nonempty junk b input =
    if ltb (usable b) ((b.end + length input) % 2 ^ 64)
    then (if leb (usable b) ((b.data_len + length input) % 2 ^ 64)
        then grow junk b input
        else slide b input)
    else extend b input

-- AppendData: the new state and the returned length, 0 when nothing is appended.
pub append_data : Cells → DataBuffer → List ℕ → Option (DataBuffer × ℕ)
append_data junk b [] = some (b, 0)
append_data junk b (x ∷ xs) = do b' ← append_nonempty junk b (x ∷ xs); some (b', b'.data_len)

-- ConsumeData: the new state, and the offset of the returned pointer; `none` there is nullptr.
pub consume_data : DataBuffer → ℤ → DataBuffer × Option ℕ
consume_data b (pos n) =
    if ltb b.data_len n
    then (b, none)
    else (record b { start = b.start + n; data_len = b.data_len - n }, some (b.start + n))
consume_data b (negsuc n) = if ltb b.start (n + 1) then (b, none) else (
  record b { start = b.start - (n + 1); data_len = b.data_len + (n + 1) },
  some (b.start - (n + 1)),
)

pub reset : DataBuffer → DataBuffer
reset b = record b { start = pre_reserve_header_size; end = pre_reserve_header_size; data_len = 0 }

-- The length is compared as an int: one of 2 ^ 31 or more counts as negative and passes.
pub require : DataBuffer → ℕ → Bool
require b len = let n = len % 2 ^ 32 in leb (2 ^ 31) n || leb n b.data_len
