-- ===== src/Utils/Base64/Laws.antt =====
-- Base64Decode takes back what Base64Encode wrote.
use cpp_streamer.Base.{ℕ, ◌+◌, ◌*◌, ◌/◌, ◌%◌, ◌<◌, bit_and}
use cpp_streamer.Base.{◌≡◌, refl, ap}
use cpp_streamer.Base.{List, [], ◌∷◌, arith}
use cpp_streamer.Base.{◌==◌, if◌then◌else◌, IsByte}
use cpp_streamer.Base.{length, All}
use cpp_streamer.Base.Bits.{agree_below, agree_below→eq}
use cpp_streamer.Utils.Base64.{
  base64_char, find_char, is_base64, code0, code1, code2, code3, base64_encode, byte0, byte1, byte2,
  valid_prefix, base64_decode,
}

find-char : (k : ℕ) → k < 64 → find_char (base64_char k) ≡ k
unfolding agree_below find_char base64_char
find-char = agree_below→eq _ _ 64 refl

abbrev taken : ℕ → ℕ
taken c = if c == 61 then 0 else if is_base64 c then 1 else 0

char_taken : (k : ℕ) → k < 64 → taken (base64_char k) ≡ 1
unfolding agree_below is_base64 base64_char
char_taken = agree_below→eq (λ k. taken (base64_char k)) (λ k. 1) 64 refl

valid_prefix-taken :
    (c : ℕ) (rest : List ℕ) → taken c ≡ 1 → valid_prefix (c ∷ rest) ≡ c ∷ valid_prefix rest
unfolding valid_prefix
valid_prefix-taken c rest h = ground arith

valid_char :
    (k : ℕ) (rest : List ℕ)
    → k < 64
    → valid_prefix (base64_char k ∷ rest) ≡ base64_char k ∷ valid_prefix rest
valid_char k rest h = valid_prefix-taken (base64_char k) rest (char_taken k h)

valid_end : (rest : List ℕ) → valid_prefix (61 ∷ rest) ≡ []
unfolding valid_prefix
valid_end rest = refl

-- The masks as arithmetic.
high6 : (a : ℕ) → a < 256 → bit_and a 0xfc / 4 ≡ a / 4
unfolding agree_below
high6 = agree_below→eq _ _ 256 refl

low2 : (a : ℕ) → a < 256 → bit_and a 0x03 ≡ a % 4
unfolding agree_below
low2 = agree_below→eq _ _ 256 refl

high4 : (a : ℕ) → a < 256 → bit_and a 0xf0 / 16 ≡ a / 16
unfolding agree_below
high4 = agree_below→eq _ _ 256 refl

low4 : (a : ℕ) → a < 256 → bit_and a 0x0f ≡ a % 16
unfolding agree_below
low4 = agree_below→eq _ _ 256 refl

high2 : (a : ℕ) → a < 256 → bit_and a 0xc0 / 64 ≡ a / 64
unfolding agree_below
high2 = agree_below→eq _ _ 256 refl

low6 : (a : ℕ) → a < 256 → bit_and a 0x3f ≡ a % 64
unfolding agree_below
low6 = agree_below→eq _ _ 256 refl

mid2 : (y : ℕ) → y < 64 → bit_and y 0x30 / 16 ≡ y / 16
unfolding agree_below
mid2 = agree_below→eq _ _ 64 refl

mid4 : (z : ℕ) → z < 64 → bit_and z 0x3c / 4 ≡ z / 4
unfolding agree_below
mid4 = agree_below→eq _ _ 64 refl

-- The four codes of three bytes.
record Codes (a b c : ℕ) : Type 0 where
  e0 : code0 a ≡ a / 4
  e1 : code1 a b ≡ a % 4 * 16 + b / 16
  e2 : code2 b c ≡ b % 16 * 4 + c / 64
  e3 : code3 c ≡ c % 64

Codes_lem : (a b c : ℕ) → a < 256 → b < 256 → c < 256 → Codes a b c
unfolding code0 code1 code2 code3
Codes_lem a b c ha hb hc = record {
  e0 = high6 a ha;
  e1 = omega (arith, low2 a ha, high4 b hb);
  e2 = omega (arith, low4 b hb, high2 c hc);
  e3 = low6 c hc;
}

-- They give the bytes back.
record Bytes (a b c : ℕ) : Type 0 where
  b0 : byte0 (code0 a) (code1 a b) ≡ a
  b1 : byte1 (code1 a b) (code2 b c) ≡ b
  b2 : byte2 (code2 b c) (code3 c) ≡ c
  l0 : code0 a < 64
  l1 : code1 a b < 64
  l2 : code2 b c < 64
  l3 : code3 c < 64

Bytes_lem : (a b c : ℕ) → a < 256 → b < 256 → c < 256 → Bytes a b c
unfolding byte0 byte1 byte2
Bytes_lem a b c ha hb hc =
    let e : Codes a b c = Codes_lem a b c ha hb hc in
    let l1 : code1 a b < 64 = omega (arith, e.e1) in
    let l2 : code2 b c < 64 = omega (arith, e.e2) in
    record {
      b0 = omega (arith, e.e0, e.e1, mid2 (code1 a b) l1);
      b1 = omega (arith, e.e1, e.e2, low4 (code1 a b) (omega arith), mid4 (code2 b c) l2);
      b2 = omega (arith, e.e2, e.e3, low2 (code2 b c) (omega arith));
      l0 = omega (arith, e.e0);
      l1 = l1;
      l2 = l2;
      l3 = omega (arith, e.e3);
    }

-- Base64Decode gives back any bytes from what Base64Encode made of them.
pub base64_decode-encode :
    (bytes : List ℕ) → All IsByte bytes → base64_decode (base64_encode bytes) ≡ bytes
unfolding base64_decode base64_encode
base64_decode-encode [] h = refl
base64_decode-encode (a ∷ []) h =
    let t : Bytes a 0 0 = Bytes_lem a 0 0 h.0 (omega arith) (omega arith) in
    rw (
      valid_char (code0 a) (base64_char (code1 a 0) ∷ 61 ∷ 61 ∷ []) t.l0,
      valid_char (code1 a 0) (61 ∷ 61 ∷ []) t.l1,
      valid_end (61 ∷ []),
      find-char (code0 a) t.l0,
      find-char (code1 a 0) t.l1,
      t.b0,
    )
base64_decode-encode (a ∷ b ∷ []) h =
    let t : Bytes a b 0 = Bytes_lem a b 0 h.0 h.1.0 (omega arith) in
    rw (
      valid_char (code0 a) (base64_char (code1 a b) ∷ base64_char (code2 b 0) ∷ 61 ∷ []) t.l0,
      valid_char (code1 a b) (base64_char (code2 b 0) ∷ 61 ∷ []) t.l1,
      valid_char (code2 b 0) (61 ∷ []) t.l2,
      valid_end [],
      find-char (code0 a) t.l0,
      find-char (code1 a b) t.l1,
      find-char (code2 b 0) t.l2,
      t.b0,
      t.b1,
    )
base64_decode-encode (a ∷ b ∷ c ∷ rest) h =
    let t : Bytes a b c = Bytes_lem a b c h.0 h.1.0 h.1.1.0 in
    rw
      (
        valid_char (code0 a)
            (base64_char (code1 a b)
              ∷ base64_char (code2 b c)
              ∷ base64_char (code3 c)
              ∷ base64_encode rest)
            t.l0,
        valid_char (code1 a b)
            (base64_char (code2 b c) ∷ base64_char (code3 c) ∷ base64_encode rest) t.l1,
        valid_char (code2 b c) (base64_char (code3 c) ∷ base64_encode rest) t.l2,
        valid_char (code3 c) (base64_encode rest) t.l3,
        find-char (code0 a) t.l0,
        find-char (code1 a b) t.l1,
        find-char (code2 b c) t.l2,
        find-char (code3 c) t.l3,
        t.b0,
        t.b1,
        t.b2,
      )
      (ap (λ l. a ∷ b ∷ c ∷ l) (base64_decode-encode rest h.1.1.1))

-- Base64Encode writes four characters for every three bytes or part of three.
pub length-base64_encode :
    (bytes : List ℕ) → length (base64_encode bytes) ≡ 4 * ((length bytes + 2) / 3)
unfolding base64_encode
length-base64_encode [] = refl
length-base64_encode (a ∷ []) = refl
length-base64_encode (a ∷ b ∷ []) = refl
length-base64_encode (a ∷ b ∷ c ∷ rest) = omega (arith, length-base64_encode rest)
