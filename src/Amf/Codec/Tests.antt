-- ===== src/Amf/Codec/Tests.antt =====
-- AMF0: witnesses and runs.
use cpp_streamer.Base.{◌≡◌, refl, true, [], ◌∷◌, arith}
use cpp_streamer.Amf.{AmfFields, no_fields, field, enable, desc_str, overrun, exhausted}
use cpp_streamer.Amf.Codec.{decode, enough, read_items}
use cpp_streamer.Amf.Codec.Fuel.{decode-enough, read_items_stuck}
use cpp_streamer.Amf.Codec.Reads.{Advances}

-- Keys "app" and "audio".
abbrev members : AmfFields
members =
    field (97 ∷ 112 ∷ 112 ∷ []) (desc_str (108 ∷ 105 ∷ 118 ∷ 101 ∷ []))
      (field (97 ∷ 117 ∷ 100 ∷ 105 ∷ 111 ∷ []) (enable true) no_fields)

-- An object in an object is not read: the byte that ends the inner one is taken for a key's length.
nested_test : decode 100 0 (3 ∷ 0 ∷ 1 ∷ 97 ∷ 3 ∷ 0 ∷ 0 ∷ 9 ∷ 0 ∷ 0 ∷ 9 ∷ []) ≡ overrun
unfolding decode
nested_test = refl

decode-enough_example : Advances 4 (decode (enough (2 ∷ 0 ∷ 1 ∷ 97 ∷ [])) 0 (2 ∷ 0 ∷ 1 ∷ 97 ∷ []))
decode-enough_example = decode-enough 0 (2 ∷ 0 ∷ 1 ∷ 97 ∷ [])

read_items_stuck_example : read_items 1000 0 (0x11 ∷ []) ≡ exhausted
read_items_stuck_example = read_items_stuck 1000 0 0x11 [] (omega arith) (omega arith)
