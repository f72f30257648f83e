-- ===== src/Utils/ByteStream.antt =====
-- src/utils/byte_stream.hpp: big-endian and little-endian fields of a byte string.
-- A pointer is the list of the bytes from it on; reading past the end is `none`.
-- A write is the list of the bytes that it stores.
pub mod Laws
use cpp_streamer.Base.{ℕ, ◌+◌, ◌*◌, ◌/◌, ◌%◌, ◌==◌, if◌then◌else◌, bit_and, Bool, true, false}
use cpp_streamer.Base.{Option, none, some, List, [], ◌∷◌, ◌>>=◌}

-- Byte `k` of the little-endian value.
abbrev pub byte_of : ℕ → ℕ → ℕ
byte_of v unit = v / unit % 256

unfoldable pub read2_bytes : List ℕ → Option ℕ
read2_bytes (a ∷ b ∷ rest) = some (a * 0x100 + b)
read2_bytes rest = none

unfoldable pub read3_bytes : List ℕ → Option ℕ
read3_bytes (a ∷ b ∷ c ∷ rest) = some (a * 0x10000 + b * 0x100 + c)
read3_bytes rest = none

unfoldable pub read4_bytes : List ℕ → Option ℕ
read4_bytes (a ∷ b ∷ c ∷ d ∷ rest) = some (a * 0x1000000 + b * 0x10000 + c * 0x100 + d)
read4_bytes rest = none

unfoldable pub read8_bytes : List ℕ → Option ℕ
read8_bytes (a ∷ b ∷ c ∷ d ∷ e ∷ f ∷ g ∷ h ∷ rest) = some (
    a * 0x100000000000000
    + b * 0x1000000000000
    + c * 0x10000000000
    + d * 0x100000000
    + e * 0x1000000
    + f * 0x10000
    + g * 0x100
    + h)
read8_bytes rest = none

unfoldable pub write2_bytes : ℕ → List ℕ
write2_bytes v = byte_of v 0x100 ∷ byte_of v 1 ∷ []

unfoldable pub write3_bytes : ℕ → List ℕ
write3_bytes v = byte_of v 0x10000 ∷ byte_of v 0x100 ∷ byte_of v 1 ∷ []

unfoldable pub write4_bytes : ℕ → List ℕ
write4_bytes v = byte_of v 0x1000000 ∷ byte_of v 0x10000 ∷ byte_of v 0x100 ∷ byte_of v 1 ∷ []

unfoldable pub write8_bytes : ℕ → List ℕ
write8_bytes v =
    byte_of v 0x100000000000000
    ∷ byte_of v 0x1000000000000
    ∷ byte_of v 0x10000000000
    ∷ byte_of v 0x100000000
    ∷ byte_of v 0x1000000
    ∷ byte_of v 0x10000
    ∷ byte_of v 0x100
    ∷ byte_of v 1
    ∷ []

unfoldable pub write2_bytes_le : ℕ → List ℕ
write2_bytes_le v = byte_of v 1 ∷ byte_of v 0x100 ∷ []

unfoldable pub write4_bytes_le : ℕ → List ℕ
write4_bytes_le v = byte_of v 1 ∷ byte_of v 0x100 ∷ byte_of v 0x10000 ∷ byte_of v 0x1000000 ∷ []

-- The loop over `index`; a difference ends it.
bytes_is_equal : ℕ → List ℕ → List ℕ → Option Bool
bytes_is_equal ℕ.zero p1 p2 = some true
bytes_is_equal (ℕ.suc len) (a ∷ p1) (b ∷ p2) =
    let rest = bytes_is_equal len p1 p2 in if a == b then rest else some false
bytes_is_equal (ℕ.suc len) p1 p2 = none
