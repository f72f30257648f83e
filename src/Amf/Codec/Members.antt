-- ===== src/Amf/Codec/Members.antt =====
-- src/format/amf/amf0.hpp: an object's members, one by one, as the encoder writes and the decoder reads them.
use cpp_streamer.Base.{ℕ, suc, ◌+◌, ◌*◌, ◌/◌, ◌%◌, ◌^◌, ◌≤◌, ◌<◌}
use cpp_streamer.Base.{◌≡◌, refl, ap, ◌∙◌, true, false}
use cpp_streamer.Base.{some, List, [], ◌∷◌, ◌++◌, arith}
use cpp_streamer.Base.{ltb, leb, ◌==◌}
use cpp_streamer.Base.{length, length-append, take-append, drop-append}
use cpp_streamer.Utils.ByteStream.{read2_bytes, write2_bytes, write4_bytes, write8_bytes}
use cpp_streamer.Amf.{amf_type}
use cpp_streamer.Amf.{AmfItem, number, enable, desc_str, long_str, null_item, undefined}
use cpp_streamer.Amf.{
  compare_keys, higher, AmfFields, no_fields, field, insert, read_chars, ret, get,
}
use cpp_streamer.Amf.Codec.{
  decode, decode_value, read2, read_key, object_end, value_at, key_chars, key_of_length,
  encode_value, encode_string, encode_number, encode_bool, finished, key_read,
}
use cpp_streamer.Utils.ByteStream.{byte_of}

-- The members that the encoder writes whole, with the sizes that their fields can tell.
abbrev pub IsFlat : AmfItem → Type 0
IsFlat (number num) = num < 2 ^ 64
IsFlat (enable flag) = Unit
IsFlat (desc_str str) = length str < 2 ^ 16
IsFlat (long_str str) = (2 ^ 16 ≤ length str) × (length str < 2 ^ 32)
IsFlat null_item = Unit
IsFlat undefined = Unit
IsFlat it = ⊥

abbrev pub push_field : AmfFields → List ℕ → AmfItem → AmfFields
push_field no_fields key value = field key value no_fields
push_field (field k v fs) key value = field k v (push_field fs key value)

-- A key is higher than all of a map's.
abbrev pub Above : AmfFields → List ℕ → Type 0
Above no_fields key = Unit
Above (field k v fs) key = (compare_keys key k ≡ higher) × Above fs key

-- A map's members in the order of their keys, after those of `before`.
abbrev pub FollowsWith : AmfFields → AmfFields → Type 0
FollowsWith before no_fields = Unit
FollowsWith before (field key value fs) =
    (0 < length key)
    × (length key < 2 ^ 16)
    × IsFlat value
    × Above before key
    × FollowsWith (push_field before key value) fs

abbrev pub IsStorable : AmfFields → Type 0
IsStorable fs = FollowsWith no_fields fs

pub insert-Above :
    (fs : AmfFields) (key : List ℕ) (value : AmfItem)
    → Above fs key
    → insert key value fs ≡ push_field fs key value
unfolding insert
insert-Above no_fields key value a = refl
insert-Above (field k v fs) key value (h, a) = rw (insert, h, insert-Above fs key value a) refl

read2-write : (v : ℕ) (rest : List ℕ) → v < 2 ^ 16 → read2 (write2_bytes v ++ rest) ≡ some (v, rest)
unfolding read2 write2_bytes read2_bytes
read2-write v rest h =
    let e : v / 256 % 256 * 256 + v / 1 % 256 ≡ v = omega arith in ap (λ k. some (k, rest)) e

read_chars-append : (s rest : List ℕ) → read_chars (length s) (s ++ rest) ≡ some (s, rest)
unfolding read_chars
read_chars-append s rest =
    let enough : ltb (length (s ++ rest)) (length s) ≡ false =
      ground (arith, length-append s rest) in
    rw (enough, take-append (length s) s rest refl, drop-append (length s) s rest refl) refl

-- What the encoder writes for a flat value is read back, whatever follows.
abbrev pub Decodes : AmfItem → List ℕ → Type 0
Decodes value bytes =
    (fuel behind : ℕ) (rest : List ℕ)
    → decode (suc (suc fuel)) behind (bytes ++ rest) ≡ ret true value rest

abbrev pub Tagged : List ℕ → Type 0
Tagged [] = ⊥
Tagged (b ∷ rest) = b ≤ 13

pub encode_value-Decodes :
    (value : AmfItem)
    → IsFlat value
    → (bytes : List ℕ) × (encode_value value ≡ some bytes) × Tagged bytes × Decodes value bytes
unfolding encode_value decode decode_value amf_type encode_number encode_bool encode_string
encode_value-Decodes (number num) h = (
  0 ∷ write8_bytes num,
  refl,
  omega arith,
  λ fuel behind rest.
      (let e : byte_of num 0x100000000000000 * 0x100000000000000
              + byte_of num 0x1000000000000 * 0x1000000000000
              + byte_of num 0x10000000000 * 0x10000000000
              + byte_of num 0x100000000 * 0x100000000
              + byte_of num 0x1000000 * 0x1000000
              + byte_of num 0x10000 * 0x10000
              + byte_of num 0x100 * 0x100
              + byte_of num 1
            ≡ num =
          omega arith in
        ap (λ k. ret true (number k) rest) e),
)
encode_value-Decodes (enable flag) h = (_, refl, omega arith, λ fuel behind rest. ground arith)
encode_value-Decodes (desc_str str) h =
    let short : ltb 0xffff (length str) ≡ false = ground arith in
    (
      2 ∷ (write2_bytes (length str) ++ str),
      rw short refl,
      omega arith,
      λ fuel behind rest.
          (let e : byte_of (length str) 0x100 * 0x100 + byte_of (length str) 1 ≡ length str =
              omega arith in
            ap
              (λ k. get (read_chars k (str ++ rest)) (λ desc rest'. ret true (desc_str desc) rest'))
              e
            ∙ ap (λ o. get o (λ desc rest'. ret true (desc_str desc) rest'))
                (read_chars-append str rest)),
    )
encode_value-Decodes (long_str str) h =
    let long : ltb 0xffff (length str) ≡ true = ground arith in
    (
      12 ∷ (write4_bytes (length str) ++ str),
      rw long refl,
      omega arith,
      λ fuel behind rest.
          (let e : byte_of (length str) 0x1000000 * 0x1000000
                  + byte_of (length str) 0x10000 * 0x10000
                  + byte_of (length str) 0x100 * 0x100
                  + byte_of (length str) 1
                ≡ length str =
              omega arith in
            ap
              (λ k. get (read_chars k (str ++ rest)) (λ desc rest'. ret true (long_str desc) rest'))
              e
            ∙ ap (λ o. get o (λ desc rest'. ret true (long_str desc) rest'))
                (read_chars-append str rest)),
    )
encode_value-Decodes null_item h = (5 ∷ [], refl, omega arith, λ fuel behind rest. refl)
encode_value-Decodes undefined h = (6 ∷ [], refl, omega arith, λ fuel behind rest. refl)
encode_value-Decodes it h = absurd h

-- A key followed by a value of a known type is read.
pub read_key-encode :
    (behind : ℕ) (key : List ℕ) (b : ℕ) (rest : List ℕ)
    → 0 < length key
    → length key < 2 ^ 16
    → b ≤ 13
    → behind ≤ length rest
    → read_key behind (encode_string true key ++ (b ∷ rest)) ≡ key_read key (b ∷ rest)
unfolding read_key encode_string key_of_length key_chars value_at write2_bytes
read_key-encode behind key b rest h0 h hb hr =
    let short : ltb 0xffff (length key) ≡ false = ground arith in
    let more : leb (length (write2_bytes (length key) ++ (key ++ (b ∷ rest)))) behind ≡ false =
      ground (arith, length-append key (b ∷ rest)) in
    let keyed : (length key == 0) ≡ false = ground arith in
    let known : ltb 13 b ≡ false = ground arith in
    let written : encode_string true key ++ (b ∷ rest)
        ≡ write2_bytes (length key) ++ (key ++ (b ∷ rest)) =
      rw (encode_string, short) refl in
    let keyed_bytes = write2_bytes (length key) ++ (key ++ (b ∷ rest)) in
    let opened : read_key behind keyed_bytes ≡ key_of_length (read2 keyed_bytes) =
      rw (read_key, more) refl in
    let split : key_of_length (some (length key, key ++ (b ∷ rest))) ≡ value_at key (b ∷ rest) =
      rw (key_of_length, keyed) (ap key_chars (read_chars-append key (b ∷ rest))) in
    let value : value_at key (b ∷ rest) ≡ key_read key (b ∷ rest) = rw known refl in
    ap (read_key behind) written
    ∙ (opened
        ∙ (ap key_of_length (read2-write (length key) (key ++ (b ∷ rest)) h) ∙ (split ∙ value)))

pub read_key_last :
    (behind : ℕ) (rest : List ℕ)
    → behind ≤ length rest
    → read_key behind (encode_string true [] ++ (9 ∷ rest)) ≡ finished (9 ∷ rest)
unfolding read_key encode_string key_of_length object_end
read_key_last behind rest hr =
    let more : leb (suc (suc (suc (length rest)))) behind ≡ false = ground arith in
    rw (read_key, more) refl
