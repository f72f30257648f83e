-- ===== src/Utils/DataBuffer/Tests.antt =====
-- The theorems on the byte buffer at concrete buffers.
use cpp_streamer.Base.{ℕ, ◌+◌, ◌≤◌}
use cpp_streamer.Base.{◌≡◌, inl, inr}
use cpp_streamer.Base.{none, some, [], ◌∷◌, arith}
use cpp_streamer.Base.{leb, ◌==◌, if◌then◌else◌}
use cpp_streamer.Base.{length, drop}
use cpp_streamer.Utils.DataBuffer.{DataBuffer, pos, new_buffer, append_data, consume_data}
use cpp_streamer.Utils.DataBuffer.Memory.{Cells}
use cpp_streamer.Utils.DataBuffer.Append.{IsValid, Appended, view}
use cpp_streamer.Utils.DataBuffer.Queue.{consume_data-view}
use cpp_streamer.Utils.DataBuffer.Append.{append_data-Appended}

abbrev fresh : Cells
fresh a = 7

-- A buffer made for 1000 bytes that holds `data_len` bytes at `start`.
abbrev made : ℕ → ℕ → DataBuffer
made start data_len = record (new_buffer fresh 1000) {
  alloc = 1200;
  buffer_size = 1000;
  start = start;
  data_len = data_len;
  end = start + data_len;
}

made-IsValid : (start data_len : ℕ) → start + data_len ≤ 1200 → IsValid (made start data_len)
made-IsValid start data_len h = omega arith

append_data_example :
    (b' : DataBuffer) × (append_data fresh (made 700 5) (1 ∷ 2 ∷ [])
      ≡ some (b', if 2 == 0 then 0 else b'.data_len))
    × Appended (view (made 700 5)) (1 ∷ 2 ∷ []) b'
append_data_example =
    append_data-Appended fresh (made 700 5) (1 ∷ 2 ∷ []) (made-IsValid 700 5 (omega arith))
      (inr (inl (omega arith))) (omega arith)

consume_data_example :
    let (b', p) = consume_data (made 700 5) (pos 3) in
    IsValid b'
    × (view b' ≡ (
        if leb 3 (length (view (made 700 5)))
        then drop 3 (view (made 700 5))
        else view (made 700 5)))
    × (p ≡ (if leb 3 (length (view (made 700 5))) then some b'.start else none))
consume_data_example = consume_data-view (made 700 5) 3 (made-IsValid 700 5 (omega arith))
