-- ===== src/Amf/Codec.antt =====
-- src/format/amf/amf0.hpp, AMF_Encoder and AMF_Decoder, and the loop that reads a command's values in
-- src/net/rtmp/rtmp_control_handler.cpp.
pub mod Reads
pub mod Members
pub mod Fuel
pub mod RoundTrip
mod Tests
use cpp_streamer.Base.{
  ℕ, zero, suc, ◌+◌, ◌-◌, ◌*◌, ◌/◌, ◌%◌, ◌^◌, ◌≤◌, ◌<◌, min, bit_and, bit_or, bit_xor,
}
use cpp_streamer.Base.{
  ◌≡◌, refl, sym, ap, ◌∙◌, ◌≢◌, ◌⊎◌, inl, inr, Bool, true, false, not, ◌&&◌, ◌||◌,
}
use cpp_streamer.Base.{
  Option, none, some, List, [], ◌∷◌, ◌++◌, map, append_assoc, append-nil, arith,
}
use cpp_streamer.Base.{
  ltb, leb, ◌==◌, if◌then◌else◌, ltb→lt, lt→ltb, leb→le, Bool-cases, Option-cases, IsByte,
}
use cpp_streamer.Base.{length, get_elem?, take, drop, All, length-append, length-take, length-drop}
use cpp_streamer.Utils.ByteStream.{
  read2_bytes, read4_bytes, read8_bytes, write2_bytes, write4_bytes, write8_bytes,
}
use cpp_streamer.Amf.{
  AmfType, type_number, type_bool, type_string, type_object, type_null, type_undefined,
  type_reference,
}
use cpp_streamer.Amf.{
  type_mixedarray, type_object_end, type_array, type_date, type_long_string, type_unsupported,
  type_unknown, amf_type,
}
use cpp_streamer.Amf.{
  AmfItem, number, date, enable, desc_str, long_str, amf_obj, mixed_array, amf_array, null_item,
  undefined, reference, unsupported, unknown,
}
use cpp_streamer.Amf.{
  AmfFields, no_fields, field, AmfItems, no_items, item, push_back, insert, read_chars, Decoded,
  ret, overrun, exhausted, get, map_decoded, advance,
}

pub encode_number : ℕ → List ℕ
unfolding write8_bytes
encode_number num = 0 ∷ write8_bytes num

pub encode_bool : Bool → List ℕ
encode_bool flag = 1 ∷ (if flag then 1 else 0) ∷ []

pub encode_string : Bool → List ℕ → List ℕ
unfolding write2_bytes write4_bytes
encode_string skip_marker str =
    if ltb 0xffff (length str)
    then (if skip_marker then [] else 0x0c ∷ []) ++ (write4_bytes (length str) ++ str)
    else (if skip_marker then [] else 0x02 ∷ []) ++ (write2_bytes (length str) ++ str)

-- The switch on a member's type: three kinds write nothing, and the rest is an error.
pub encode_value : AmfItem → Option (List ℕ)
unfolding encode_number encode_bool encode_string
encode_value (number num) = some (encode_number num)
encode_value (enable flag) = some (encode_bool flag)
encode_value (desc_str str) = some (encode_string false str)
encode_value null_item = some (5 ∷ [])
encode_value undefined = some (6 ∷ [])
encode_value (mixed_array fs) = some []
encode_value (amf_array xs) = some []
encode_value (date num) = some []
encode_value (long_str str) = some (encode_string false str)
encode_value it = none

-- The code (`true` is 0) and what is put in the buffer, on an error as well.
pub encode_fields : AmfFields → Bool × List ℕ
unfolding encode_string encode_value
encode_fields no_fields = (true, encode_string true [] ++ (9 ∷ []))
encode_fields (field key value fs) =
    let (code, bytes) = encode_fields fs in
    elim (encode_value value) [
      | none ↦ (false, encode_string true key)
      | some v ↦ (code, encode_string true key ++ (v ++ bytes))
    ]

pub encode_object : AmfFields → Bool × List ℕ
unfolding encode_fields
encode_object fs = let (code, bytes) = encode_fields fs in (code, 3 ∷ bytes)

pub read1 : List ℕ → Option (ℕ × List ℕ)
read1 [] = none
read1 (b ∷ rest) = some (b, rest)

pub read2 : List ℕ → Option (ℕ × List ℕ)
unfolding read2_bytes
read2 bytes = advance 2 bytes (read2_bytes bytes)

pub read4 : List ℕ → Option (ℕ × List ℕ)
unfolding read4_bytes
read4 bytes = advance 4 bytes (read4_bytes bytes)

pub read8 : List ℕ → Option (ℕ × List ℕ)
unfolding read8_bytes
read8 bytes = advance 8 bytes (read8_bytes bytes)

-- A round of the loop over an object's members up to the member's value. The key that is empty ends it,
-- and the byte behind that is looked at and not passed.
pub data KeyStep : Type 0 where
  finished refused : List ℕ → KeyStep
  key_read : List ℕ → List ℕ → KeyStep
  no_key : KeyStep

pub object_end : List ℕ → KeyStep
object_end [] = no_key
object_end (b ∷ rest) = if b == 9 then finished (b ∷ rest) else no_key

pub value_at : List ℕ → List ℕ → KeyStep
value_at key [] = no_key
value_at key (b ∷ rest) = if ltb 13 b then refused (b ∷ rest) else key_read key (b ∷ rest)

pub key_chars : Option (List ℕ × List ℕ) → KeyStep
unfolding value_at
key_chars none = no_key
key_chars (some (key, value)) = value_at key value

pub key_of_length : Option (ℕ × List ℕ) → KeyStep
unfolding read_chars object_end key_chars
key_of_length none = no_key
key_of_length (some (key_len, rest)) =
    if key_len == 0 then object_end rest else key_chars (read_chars key_len rest)

pub read_key : ℕ → List ℕ → KeyStep
unfolding read2 key_of_length
read_key behind bytes =
    if leb (length bytes) behind then finished bytes else key_of_length (read2 bytes)

-- Decode, its switch, DecodeAmfObject and DecodeAmfArray.
mutual
  unfolding amf_type read_key read1 read2 read4 read8 read_chars insert push_back

  pub decode : ℕ → ℕ → List ℕ → Decoded AmfItem
  decode zero behind bytes = exhausted
  decode (suc fuel) behind [] = overrun
  decode (suc fuel) behind (type ∷ bytes) = elim (amf_type type) [
    | none ↦ ret false unknown (type ∷ bytes)
    | some t ↦ decode_value fuel behind t bytes
  ]

  pub decode_value : ℕ → ℕ → AmfType → List ℕ → Decoded AmfItem
  decode_value zero behind t bytes = exhausted
  decode_value (suc fuel) behind type_number bytes =
      get (read8 bytes) (λ value rest. ret true (number value) rest)
  decode_value (suc fuel) behind type_bool bytes =
      get (read1 bytes) (λ value rest. ret true (enable (not (value == 0))) rest)
  decode_value (suc fuel) behind type_string bytes =
      get (read2 bytes) (λ str_len rest.
        get (read_chars str_len rest) (λ desc rest'. ret true (desc_str desc) rest'))
  decode_value (suc fuel) behind type_object bytes =
      map_decoded (λ c. c) amf_obj (decode_object fuel behind no_fields bytes)
  decode_value (suc fuel) behind type_null bytes = ret true null_item bytes
  decode_value (suc fuel) behind type_undefined bytes = ret true undefined bytes
  decode_value (suc fuel) behind type_reference bytes = overrun
  decode_value (suc fuel) behind type_mixedarray bytes =
      get (read4 bytes)
        (λ array_len rest. map_decoded (λ c. c) amf_obj (decode_object fuel behind no_fields rest))
  decode_value (suc fuel) behind type_array bytes = get (read4 bytes) (λ array_len rest.
      map_decoded (λ c. true) amf_array (decode_array fuel behind array_len no_items rest))
  decode_value (suc fuel) behind type_date bytes =
      get (read8 bytes) (λ value rest. ret true (date value) (drop 2 rest))
  decode_value (suc fuel) behind type_long_string bytes =
      get (read4 bytes) (λ str_len rest.
        get (read_chars str_len rest) (λ desc rest'. ret true (long_str desc) rest'))
  decode_value (suc fuel) behind type_unsupported bytes = ret true (long_str []) bytes
  decode_value (suc fuel) behind t bytes = ret false unknown bytes

  pub decode_object : ℕ → ℕ → AmfFields → List ℕ → Decoded AmfFields
  decode_object zero behind fs bytes = exhausted
  decode_object (suc fuel) behind fs bytes = elim (read_key behind bytes) [
    | finished rest ↦ ret true fs rest
    | refused rest ↦ ret false fs rest
    | no_key ↦ overrun
    | key_read key rest ↦ elim (decode fuel behind rest) [
      | ret code value rest' ↦ elim code [
        | true ↦ decode_object fuel behind (insert key value fs) rest'
        | false ↦ ret false fs rest'
      ]
      | overrun ↦ overrun
      | exhausted ↦ exhausted
    ]
  ]

  pub decode_array : ℕ → ℕ → ℕ → AmfItems → List ℕ → Decoded AmfItems
  decode_array zero behind left xs bytes = exhausted
  decode_array (suc fuel) behind zero xs bytes = ret true xs bytes
  decode_array (suc fuel) behind (suc left) xs bytes = elim (decode fuel behind bytes) [
    | ret code value rest ↦ elim code [
      | true ↦ decode_array fuel behind left (push_back xs value) rest
      | false ↦ ret false xs rest
    ]
    | overrun ↦ overrun
    | exhausted ↦ exhausted
  ]

-- The rounds that suffice, as a value takes a byte at least.
abbrev pub enough : List ℕ → ℕ
enough bytes = 2 * length bytes + 1

-- The values of a command. The decoder's code is not looked at, and what it has filled in is kept.
pub read_items : ℕ → ℕ → List ℕ → Decoded AmfItems
unfolding decode
read_items zero behind bytes = exhausted
read_items (suc fuel) behind bytes = elim (leb (length bytes) behind) [
  | true ↦ ret true no_items bytes
  | false ↦ elim (decode (enough bytes) behind bytes) [
    | ret code value rest ↦ map_decoded (λ c. c) (item value) (read_items fuel behind rest)
    | overrun ↦ overrun
    | exhausted ↦ exhausted
  ]
]
