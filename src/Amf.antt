-- ===== src/Amf.antt =====
-- src/format/amf/amf0.hpp: values of AMF0 written and read, and the loop of
-- src/net/rtmp/rtmp_control_handler.cpp that reads a command. A double is its 64 bits, a string its bytes;
-- the decoder's pointer is the memory from it on, and its left_len the length of that less `behind`, the
-- memory after the message, since the two are always moved together.
pub mod Codec
use cpp_streamer.Base.{
  ℕ, zero, suc, ◌+◌, ◌-◌, ◌*◌, ◌/◌, ◌%◌, ◌^◌, ◌≤◌, ◌<◌, min, bit_and, bit_or, bit_xor,
}
use cpp_streamer.Base.{
  ◌≡◌, refl, sym, ap, ◌∙◌, ◌≢◌, ◌⊎◌, inl, inr, Bool, true, false, not, ◌&&◌, ◌||◌,
}
use cpp_streamer.Base.{
  Option, none, some, List, [], ◌∷◌, ◌++◌, map, append_assoc, append-nil, arith,
}
use cpp_streamer.Base.{
  ltb, leb, ◌==◌, if◌then◌else◌, ltb→lt, lt→ltb, leb→le, Bool-cases, Option-cases, IsByte,
}
use cpp_streamer.Base.{length, get_elem?, take, drop, All, length-append, length-take, length-drop}
use cpp_streamer.Utils.ByteStream.{
  read2_bytes, read4_bytes, read8_bytes, write2_bytes, write4_bytes, write8_bytes,
}

-- AMF_DATA_TYPE as a byte from 0 to 13 is read; 4 is none of them.
pub data AmfType : Type 0 where
  type_number type_bool type_string type_object type_null type_undefined type_reference : AmfType
  type_mixedarray type_object_end type_array type_date type_long_string type_unsupported
        type_unknown :
      AmfType

-- Greater than AMF_DATA_TYPE_UNSUPPORTED is `none`.
pub amf_type : ℕ → Option AmfType
amf_type b =
    if ltb 13 b
    then none
    else if b == 0
    then some type_number
    else if b == 1
    then some type_bool
    else if b == 2
    then some type_string
    else if b == 3
    then some type_object
    else if b == 5
    then some type_null
    else if b == 6
    then some type_undefined
    else if b == 7
    then some type_reference
    else if b == 8
    then some type_mixedarray
    else if b == 9
    then some type_object_end
    else if b == 10
    then some type_array
    else if b == 11
    then some type_date
    else if b == 12
    then some type_long_string
    else if b == 13
    then some type_unsupported
    else some type_unknown

-- AMF_ITERM: its type with the one field that the type uses. `Fields` is amf_obj_, in the order of the
-- keys; `Items` is amf_array_.
mutual
  pub data AmfItem : Type 0 where
    number date : ℕ → AmfItem
    enable : Bool → AmfItem
    desc_str long_str : List ℕ → AmfItem
    amf_obj mixed_array : AmfFields → AmfItem
    amf_array : AmfItems → AmfItem
    null_item undefined reference unsupported unknown : AmfItem

  pub data AmfFields : Type 0 where
    no_fields : AmfFields
    field : List ℕ → AmfItem → AmfFields → AmfFields

  pub data AmfItems : Type 0 where
    no_items : AmfItems
    item : AmfItem → AmfItems → AmfItems

pub push_back : AmfItems → AmfItem → AmfItems
push_back no_items x = item x no_items
push_back (item y xs) x = item y (push_back xs x)

-- The order of std::string.
pub data KeyOrder : Type 0 where
  lower same higher : KeyOrder

pub compare_keys : List ℕ → List ℕ → KeyOrder
compare_keys [] [] = same
compare_keys [] (b ∷ t) = lower
compare_keys (a ∷ s) [] = higher
compare_keys (a ∷ s) (b ∷ t) =
    let rest = compare_keys s t in if ltb a b then lower else if ltb b a then higher else rest

-- std::map::insert, which leaves a key that is there.
pub insert : List ℕ → AmfItem → AmfFields → AmfFields
unfolding compare_keys
insert key value no_fields = field key value no_fields
insert key value (field k v fs) = elim (compare_keys key k) [
  | lower ↦ field key value (field k v fs)
  | same ↦ field k v fs
  | higher ↦ field k v (insert key value fs)
]

-- What a call of the decoder comes to: its code (`true` is 0, `false` is -1), what it has filled in and
-- where the pointer stands; a read outside the memory or an assert; or a model out of rounds.
pub data Decoded (A : Type 0) : Type 0 where
  ret : Bool → A → List ℕ → Decoded A
  overrun exhausted : Decoded A

abbrev pub get : {A B : Type 0} → Option (A × List ℕ) → (A → List ℕ → Decoded B) → Decoded B
get none f = overrun
get (some (a, rest)) f = f a rest

abbrev pub map_decoded : {A B : Type 0} → (Bool → Bool) → (A → B) → Decoded A → Decoded B
map_decoded c f (ret code a rest) = ret (c code) (f a) rest
map_decoded c f overrun = overrun
map_decoded c f exhausted = exhausted

-- A field of `n` bytes and the memory behind it.
abbrev pub advance : ℕ → List ℕ → Option ℕ → Option (ℕ × List ℕ)
advance n bytes none = none
advance n bytes (some v) = some (v, drop n bytes)

pub read_chars : ℕ → List ℕ → Option (List ℕ × List ℕ)
read_chars n bytes = if ltb (length bytes) n then none else some (take n bytes, drop n bytes)
