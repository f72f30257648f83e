-- ===== src/Nalu.antt =====
-- src/format/h264_h265_header.cpp: the units of an H.264 or H.265 stream, which stand behind start codes
-- (Annex B) or behind their lengths (AVCC). The units are returned as the bytes of their buffers.
pub mod Laws
pub mod AnnexB
mod Tests
use cpp_streamer.Base.{
  ℕ, zero, suc, ◌+◌, ◌-◌, ◌*◌, ◌/◌, ◌%◌, ◌^◌, ◌≤◌, ◌<◌, min, bit_and, bit_or, bit_xor,
}
use cpp_streamer.Base.{
  ◌≡◌, refl, sym, ap, ◌∙◌, ◌≢◌, ◌⊎◌, inl, inr, Bool, true, false, not, ◌&&◌, ◌||◌,
}
use cpp_streamer.Base.{
  Option, none, some, List, [], ◌∷◌, ◌++◌, map, append_assoc, append-nil, arith,
}
use cpp_streamer.Base.{
  ltb, leb, ◌==◌, if◌then◌else◌, ltb→lt, lt→ltb, leb→le, Bool-cases, Option-cases, IsByte,
}
use cpp_streamer.Base.{
  length, get_elem?, take, drop, All, length-append, length-take, length-drop, take-append-drop,
  drop-drop, take-append, drop-append, take-all,
}
use cpp_streamer.Base.Outcome.{Outcome, done, throws, fault, ◌>>=◌, access}
use cpp_streamer.Utils.ByteStream.{read4_bytes, write4_bytes, byte_of}

-- The length of the start code at the head of the bytes left, 0 if there is none.
pub start_code : List ℕ → ℕ
start_code (a ∷ b ∷ c ∷ d ∷ rest) =
    if a == 0 && b == 0 && c == 0 && d == 1 then 4 else if a == 0 && b == 0 && c == 1 then 3 else 0
start_code (a ∷ b ∷ c ∷ []) = if a == 0 && b == 0 && c == 1 then 3 else 0
start_code short = 0

-- The loop that both conversions begin with: the places of the codes and their lengths. Of a code found,
-- `skip` bytes are still to be passed.
pub find_codes : ℕ → ℕ → List ℕ → List (ℕ × ℕ)
unfolding start_code
find_codes p skip [] = []
find_codes p (suc skip) (b ∷ rest) = find_codes (p + 1) skip rest
find_codes p zero (b ∷ rest) =
    let n = start_code (b ∷ rest) in
    let more = find_codes (p + 1) (n - 1) rest in if n == 0 then more else (p, n) ∷ more

-- The bytes from each position to the next, and from the last to the end.
pub cut : List ℕ → List ℕ → List (List ℕ)
cut bytes [] = []
cut bytes (p ∷ []) = drop p bytes ∷ []
cut bytes (p ∷ q ∷ ps) = take (q - p) (drop p bytes) ∷ cut bytes (q ∷ ps)

abbrev pub code_at : ℕ × ℕ → ℕ
code_at (p, n) = p

abbrev pub code_end : ℕ × ℕ → ℕ
code_end (p, n) = p + n

pub annexb2nalus : List ℕ → Bool × List (List ℕ)
unfolding find_codes cut
annexb2nalus bytes =
    if ltb (length bytes) 4
    then (false, [])
    else (true, cut bytes (map code_at (find_codes 0 0 bytes)))

abbrev pub with_length : List ℕ → List ℕ
with_length nalu = write4_bytes (length nalu) ++ nalu

pub annexb2avcc : List ℕ → Bool × List (List ℕ)
unfolding find_codes cut write4_bytes
annexb2avcc bytes =
    if ltb (length bytes) 4
    then (false, [])
    else (true, map with_length (cut bytes (map code_end (find_codes 0 0 bytes))))

abbrev pub max_len : ℕ
max_len = 10000000

abbrev pub with_code : List ℕ → List ℕ
with_code nalu = 0 ∷ 0 ∷ 0 ∷ 1 ∷ nalu

-- A unit and what is behind it; `none` is a length above the limit.
pub avcc_unit : List ℕ → Outcome (Option (List ℕ × List ℕ))
unfolding read4_bytes
avcc_unit bytes = do
  nalu_len ← access (read4_bytes bytes)
  if ltb max_len nalu_len
      then done none
      else if ltb (length (drop 4 bytes)) nalu_len
      then fault
      else done (some (take nalu_len (drop 4 bytes), drop nalu_len (drop 4 bytes)))

-- The loop of Avcc2Nalus, of which a round takes four bytes at least. The memory behind the `len` bytes
-- has the length `behind`; data_len is the length of what is left less that, if it is positive.
pub avcc_loop : ℕ → ℕ → List ℕ → Outcome (Bool × List (List ℕ))
unfolding avcc_unit
avcc_loop zero behind bytes = fault
avcc_loop (suc fuel) behind bytes = elim (leb (length bytes) behind) [
  | true ↦ done (true, [])
  | false ↦ (do
    unit ← avcc_unit bytes
    elim unit [
      | none ↦ done (false, [])
      | some (nalu, rest) ↦ (do
        more ← avcc_loop fuel behind rest
        done (more.0, with_code nalu ∷ more.1))
    ])
]

pub avcc2nalus : ℕ → List ℕ → Outcome (Bool × List (List ℕ))
unfolding avcc_loop
avcc2nalus behind bytes =
    if ltb (length bytes) (behind + 4)
    then done (false, [])
    else avcc_loop (suc (length bytes)) behind bytes

-- GetNaluTypePos, where -1 is `none`; a byte that is not there is a fault.
pub get_nalu_type_pos : List ℕ → Outcome (Option ℕ)
get_nalu_type_pos bytes = do
  a ← access (get_elem? bytes 0)
  if not (a == 0) then done none else (do
    b ← access (get_elem? bytes 1)
    if not (b == 0) then done none else (do
      c ← access (get_elem? bytes 2)
      if c == 1
          then done (some 3)
          else if not (c == 0)
          then done none
          else (do d ← access (get_elem? bytes 3); done (if d == 1 then some 4 else none))))
