-- ===== src/Nalu/Tests.antt =====
-- NAL units: witnesses and runs.
use cpp_streamer.Base.{ℕ, ◌≡◌, refl, ◌<◌, true, some, List, [], ◌∷◌, ◌++◌, map, arith, All}
use cpp_streamer.Base.Outcome.{done}
use cpp_streamer.Nalu.{annexb2nalus, annexb2avcc, avcc2nalus, with_code, get_nalu_type_pos}
use cpp_streamer.Nalu.Laws.{concat, avcc, avcc2nalus-avcc}
use cpp_streamer.Nalu.AnnexB.{code_length, NoCode, Units, annexb2nalus-Units}
use cpp_streamer.Base.{length}

-- A unit of two bytes and one of one.
abbrev stream : List ℕ
stream = 9 ∷ 0 ∷ 0 ∷ 0 ∷ 1 ∷ 0x67 ∷ 5 ∷ 0 ∷ 0 ∷ 1 ∷ 0x68 ∷ []

-- The start code of the second unit is taken into the first.
annexb2avcc_test :
    annexb2avcc stream
    ≡ (true, (0 ∷ 0 ∷ 0 ∷ 5 ∷ 0x67 ∷ 5 ∷ 0 ∷ 0 ∷ 1 ∷ []) ∷ (0 ∷ 0 ∷ 0 ∷ 1 ∷ 0x68 ∷ []) ∷ [])
unfolding annexb2avcc
annexb2avcc_test = refl

get_nalu_type_pos_test : get_nalu_type_pos (0 ∷ 0 ∷ 1 ∷ 0x68 ∷ []) ≡ done (some 3)
unfolding get_nalu_type_pos
get_nalu_type_pos_test = refl

annexb2nalus-Units_example :
    (front : List ℕ) × ((annexb2nalus stream).0 ≡ true)
    × (front ++ concat (annexb2nalus stream).1 ≡ stream)
    × NoCode code_length stream 0 (length front)
    × Units code_length stream (length front) (annexb2nalus stream).1
    × All (λ u. 0 < code_length u) (annexb2nalus stream).1
annexb2nalus-Units_example = annexb2nalus-Units stream (omega arith)

abbrev units : List (List ℕ)
units = (0x67 ∷ 5 ∷ []) ∷ (0x68 ∷ []) ∷ []

avcc2nalus-avcc_example :
    avcc2nalus 2 (avcc units ++ (7 ∷ 7 ∷ [])) ≡ done (true, map with_code units)
avcc2nalus-avcc_example =
    avcc2nalus-avcc units (7 ∷ 7 ∷ []) (omega arith) (omega arith, (omega arith, tt))
