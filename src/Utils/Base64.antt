-- ===== src/Utils/Base64.antt =====
-- src/utils/base64.cpp. A string is the list of its bytes; `isalnum` is that of the C locale. A group of
-- four characters stands for the round in which `i` reaches 4 (3 for the encoder).
pub mod Laws
mod Tests
use cpp_streamer.Base.{
  ℕ, zero, suc, ◌+◌, ◌-◌, ◌*◌, ◌/◌, ◌%◌, ◌^◌, ◌≤◌, ◌<◌, min, bit_and, bit_or, bit_xor,
}
use cpp_streamer.Base.{
  ◌≡◌, refl, sym, ap, ◌∙◌, ◌≢◌, ◌⊎◌, inl, inr, Bool, true, false, not, ◌&&◌, ◌||◌,
}
use cpp_streamer.Base.{
  Option, none, some, List, [], ◌∷◌, ◌++◌, map, append_assoc, append-nil, arith,
}
use cpp_streamer.Base.{
  ltb, leb, ◌==◌, if◌then◌else◌, ◌>>=◌, ltb→lt, lt→ltb, leb→le, Bool-cases, Option-cases,
  >>=-eq-some, IsByte,
}
use cpp_streamer.Base.{length, get_elem?, take, drop, All, length-append, length-take, length-drop}
use cpp_streamer.Base.{take-append-drop, take-append, drop-append, take-all, drop-drop, All-append}

-- base64_chars[k], of which the codes below 64 are used.
pub base64_char : ℕ → ℕ
base64_char k =
    if ltb k 26
    then 65 + k
    else if ltb k 52
    then 97 + (k - 26)
    else if ltb k 62
    then 48 + (k - 52)
    else if k == 62
    then 43
    else 47

-- base64_chars.find, cut to a byte; npos gives 255.
pub find_char : ℕ → ℕ
find_char c =
    if leb 65 c && leb c 90
    then c - 65
    else if leb 97 c && leb c 122
    then c - 97 + 26
    else if leb 48 c && leb c 57
    then c - 48 + 52
    else if c == 43
    then 62
    else if c == 47
    then 63
    else 255

pub is_base64 : ℕ → Bool
is_base64 c =
    (leb 48 c && leb c 57)
    || (leb 65 c && leb c 90)
    || (leb 97 c && leb c 122)
    || c == 43
    || c == 47

-- char_array_4 of the encoder
pub code0 : ℕ → ℕ
code0 a = bit_and a 0xfc / 4

pub code1 : ℕ → ℕ → ℕ
code1 a b = bit_and a 0x03 * 16 + bit_and b 0xf0 / 16

pub code2 : ℕ → ℕ → ℕ
code2 b c = bit_and b 0x0f * 4 + bit_and c 0xc0 / 64

pub code3 : ℕ → ℕ
code3 c = bit_and c 0x3f

pub base64_encode : List ℕ → List ℕ
unfolding base64_char code0 code1 code2 code3
base64_encode [] = []
base64_encode (a ∷ []) = base64_char (code0 a) ∷ base64_char (code1 a 0) ∷ 61 ∷ 61 ∷ []
base64_encode (a ∷ b ∷ []) =
    base64_char (code0 a) ∷ base64_char (code1 a b) ∷ base64_char (code2 b 0) ∷ 61 ∷ []
base64_encode (a ∷ b ∷ c ∷ rest) =
    base64_char (code0 a)
    ∷ base64_char (code1 a b)
    ∷ base64_char (code2 b c)
    ∷ base64_char (code3 c)
    ∷ base64_encode rest

-- char_array_3 of the decoder
pub byte0 : ℕ → ℕ → ℕ
byte0 x y = (x * 4 + bit_and y 0x30 / 16) % 256

pub byte1 : ℕ → ℕ → ℕ
byte1 y z = (bit_and y 0xf * 16 + bit_and z 0x3c / 4) % 256

pub byte2 : ℕ → ℕ → ℕ
byte2 z w = (bit_and z 0x3 * 64 + w) % 256

-- The characters that the loop takes in.
pub valid_prefix : List ℕ → List ℕ
unfolding is_base64
valid_prefix [] = []
valid_prefix (c ∷ rest) =
    let more = valid_prefix rest in if c == 61 then [] else if is_base64 c then c ∷ more else []

pub decode_groups : List ℕ → List ℕ
unfolding find_char byte0 byte1 byte2
decode_groups [] = []
decode_groups (w ∷ []) = []
decode_groups (w ∷ x ∷ []) = byte0 (find_char w) (find_char x) ∷ []
decode_groups (w ∷ x ∷ y ∷ []) =
    byte0 (find_char w) (find_char x) ∷ byte1 (find_char x) (find_char y) ∷ []
decode_groups (w ∷ x ∷ y ∷ z ∷ rest) =
    byte0 (find_char w) (find_char x)
    ∷ byte1 (find_char x) (find_char y)
    ∷ byte2 (find_char y) (find_char z)
    ∷ decode_groups rest

pub base64_decode : List ℕ → List ℕ
unfolding valid_prefix decode_groups
base64_decode encoded_string = decode_groups (valid_prefix encoded_string)
