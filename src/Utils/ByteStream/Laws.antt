-- ===== src/Utils/ByteStream/Laws.antt =====
-- Reading back what was written, and writing back what was read.
use cpp_streamer.Base.{ℕ, ◌%◌, ◌^◌, ◌≡◌, ap, arith}
use cpp_streamer.Base.{some, List, ◌++◌}
use cpp_streamer.Utils.ByteStream.{read2_bytes, read3_bytes, read4_bytes, read8_bytes}
use cpp_streamer.Utils.ByteStream.{write2_bytes, write3_bytes, write4_bytes, write8_bytes}

pub read2-write2 :
    (v : ℕ) (rest : List ℕ) → read2_bytes (write2_bytes v ++ rest) ≡ some (v % 2 ^ 16)
unfolding read2_bytes write2_bytes
read2-write2 v rest = ap some (omega arith)

pub read3-write3 :
    (v : ℕ) (rest : List ℕ) → read3_bytes (write3_bytes v ++ rest) ≡ some (v % 2 ^ 24)
unfolding read3_bytes write3_bytes
read3-write3 v rest = ap some (omega arith)

pub read4-write4 :
    (v : ℕ) (rest : List ℕ) → read4_bytes (write4_bytes v ++ rest) ≡ some (v % 2 ^ 32)
unfolding read4_bytes write4_bytes
read4-write4 v rest = ap some (omega arith)

pub read8-write8 :
    (v : ℕ) (rest : List ℕ) → read8_bytes (write8_bytes v ++ rest) ≡ some (v % 2 ^ 64)
unfolding read8_bytes write8_bytes
read8-write8 v rest = ap some (omega arith)

-- What is written after the low 16, 24, 32 or 64 bits of `v`, followed by anything, reads back as
-- those bits.
pub read-write :
    (v : ℕ) (rest : List ℕ)
    → (read2_bytes (write2_bytes v ++ rest) ≡ some (v % 2 ^ 16))
      × (read3_bytes (write3_bytes v ++ rest) ≡ some (v % 2 ^ 24))
      × (read4_bytes (write4_bytes v ++ rest) ≡ some (v % 2 ^ 32))
      × (read8_bytes (write8_bytes v ++ rest) ≡ some (v % 2 ^ 64))
read-write v rest =
    (read2-write2 v rest, read3-write3 v rest, read4-write4 v rest, read8-write8 v rest)
