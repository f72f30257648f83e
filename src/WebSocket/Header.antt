-- ===== src/WebSocket/Header.antt =====
-- src/net/http/websocket: the header and the payload of a frame that was sent, each read by itself.
use cpp_streamer.Base.{ℕ, ◌+◌, ◌/◌, ◌%◌, ◌^◌, ◌≤◌, ◌<◌}
use cpp_streamer.Base.{◌≡◌, refl, sym, ap, ◌∙◌, true, false}
use cpp_streamer.Base.{some, List, [], ◌∷◌, ◌++◌, arith}
use cpp_streamer.Base.{ltb, leb, ◌==◌, IsByte}
use cpp_streamer.Base.{length, drop, All, length-append}
use cpp_streamer.Base.{take-append, drop-append, drop-drop}
use cpp_streamer.WebSocket.{
  Key, apply_mask, Frame, read_length, take_key, read_mask, read_header, read_payload,
}
use cpp_streamer.WebSocket.Xor.{xor-xor}
use cpp_streamer.Utils.ByteStream.{write2_bytes, write8_bytes}
use cpp_streamer.Utils.ByteStream.Laws.{read2-write2, read8-write8}

pub record IsKey (k : Key) : Type 0 where
  pub b0 : k.k0 < 256
  pub b1 : k.k1 < 256
  pub b2 : k.k2 < 256
  pub b3 : k.k3 < 256

mask-mask : (k : Key) (xs : List ℕ) → IsKey k → All IsByte xs → apply_mask k (apply_mask k xs) ≡ xs
unfolding apply_mask
mask-mask k (a ∷ b ∷ c ∷ d ∷ rest) h hx = rw (
  xor-xor a k.k0 hx.0 h.b0,
  xor-xor b k.k1 hx.1.0 h.b1,
  xor-xor c k.k2 hx.1.1.0 h.b2,
  xor-xor d k.k3 hx.1.1.1.0 h.b3,
  mask-mask k rest h hx.1.1.1.1,
)
mask-mask k (a ∷ b ∷ c ∷ []) h hx =
    rw (xor-xor a k.k0 hx.0 h.b0, xor-xor b k.k1 hx.1.0 h.b1, xor-xor c k.k2 hx.1.1.0 h.b2)
mask-mask k (a ∷ b ∷ []) h hx = rw (xor-xor a k.k0 hx.0 h.b0, xor-xor b k.k1 hx.1.0 h.b1)
mask-mask k (a ∷ []) h hx = rw (xor-xor a k.k0 hx.0 h.b0)
mask-mask k [] h hx = refl

length-mask : (k : Key) (xs : List ℕ) → length (apply_mask k xs) ≡ length xs
unfolding apply_mask
length-mask k (a ∷ b ∷ c ∷ d ∷ rest) = omega (arith, length-mask k rest)
length-mask k (a ∷ b ∷ c ∷ []) = refl
length-mask k (a ∷ b ∷ []) = refl
length-mask k (a ∷ []) = refl
length-mask k [] = refl

-- The state once the header of a frame of `n` bytes with the key `k` has been read.
abbrev pub opened : Key → ℕ → ℕ → ℕ → Frame → Frame
opened k op_code start n s = record s {
  payload_start = start;
  payload_len = n;
  opcode = op_code % 16;
  mask_enable = true;
  fin = true;
  header_ready = true;
  masking_key = k;
}

b0_low : (op_code : ℕ) → (128 + op_code % 16) % 16 ≡ op_code % 16
b0_low op_code = omega arith

b0_fin : (op_code : ℕ) → ((128 + op_code % 16) / 128 % 2 == 1) ≡ true
b0_fin op_code = ground arith

-- The state of `s` with the bytes `wire` in its buffer.
abbrev pub holding : List ℕ → Frame → Frame
holding wire s = record s { buffer = wire }

-- The key and what follows it.
abbrev pub keyed : Key → List ℕ → List ℕ
keyed k tail = k.k0 ∷ k.k1 ∷ k.k2 ∷ k.k3 ∷ tail

pub enough : (have need : ℕ) → need ≤ have → ltb have need ≡ false
enough have need h = ground arith

small_word : (n : ℕ) → n < 2 ^ 63 → leb (2 ^ 63) n ≡ false
small_word n h = ground arith

pub header_short :
    (k : Key) (op_code n : ℕ) (tail : List ℕ) (s : Frame)
    → n < 126
    → (let wire = (128 + op_code % 16) ∷ (128 + n) ∷ keyed k tail in
        read_header wire (holding wire s) ≡ some (true, opened k op_code 6 n (holding wire s)))
unfolding read_header read_length read_mask take_key
header_short k op_code n tail s h =
    let len : (128 + n) % 128 ≡ n = omega arith in
    let masked : ((128 + n) / 128 % 2 == 1) ≡ true = ground arith in
    let not127 : (n == 127) ≡ false = ground arith in
    let not126 : (n == 126) ≡ false = ground arith in
    let there = enough (length (0 ∷ 0 ∷ keyed k tail)) 6 (omega arith) in
    rw (len, masked, not127, not126, b0_low op_code, b0_fin op_code, there)

pub header_two :
    (k : Key) (op_code n : ℕ) (tail : List ℕ) (s : Frame)
    → n < 65536
    → (let wire = (128 + op_code % 16) ∷ 254 ∷ (write2_bytes n ++ keyed k tail) in
        read_header wire (holding wire s) ≡ some (true, opened k op_code 8 n (holding wire s)))
unfolding read_header read_length read_mask take_key write2_bytes
header_two k op_code n tail s h =
    let small : n % 2 ^ 16 ≡ n = omega arith in
    rw (
      read2-write2 n (keyed k tail),
      small,
      b0_low op_code,
      b0_fin op_code,
      enough (length (0 ∷ 0 ∷ 0 ∷ 0 ∷ keyed k tail)) 4 (omega arith),
      enough (length (0 ∷ 0 ∷ 0 ∷ 0 ∷ keyed k tail)) 8 (omega arith),
    )

pub header_eight :
    (k : Key) (op_code n : ℕ) (tail : List ℕ) (s : Frame)
    → n < 2 ^ 64
    → (let wire = (128 + op_code % 16) ∷ 255 ∷ (write8_bytes n ++ keyed k tail) in
        read_header wire (holding wire s) ≡ some (true, opened k op_code 14 n (holding wire s)))
unfolding read_header read_length read_mask take_key write8_bytes
header_eight k op_code n tail s h =
    let small : n % 2 ^ 64 ≡ n = omega arith in
    rw (
      read8-write8 n (keyed k tail),
      small,
      b0_low op_code,
      b0_fin op_code,
      enough (length (0 ∷ 0 ∷ 0 ∷ 0 ∷ 0 ∷ 0 ∷ 0 ∷ 0 ∷ 0 ∷ 0 ∷ keyed k tail)) 10 (omega arith),
      enough (length (0 ∷ 0 ∷ 0 ∷ 0 ∷ 0 ∷ 0 ∷ 0 ∷ 0 ∷ 0 ∷ 0 ∷ keyed k tail)) 14 (omega arith),
    )

pub payload_sent :
    (pre tail rest : List ℕ) (s : Frame)
    → IsKey s.masking_key
    → All IsByte tail
    → s.mask_enable ≡ true
    → s.payload_start ≡ length pre
    → s.payload_len ≡ length tail
    → length pre + length tail < 2 ^ 63
    → s.buffer ≡ pre ++ (apply_mask s.masking_key tail ++ rest)
    → read_payload s ≡ some (0, record s { buffer = pre ++ (tail ++ rest) })
unfolding read_payload
payload_sent pre tail rest s hk hb masked es el fits e =
    let sent = apply_mask s.masking_key tail in
    let n = length-mask s.masking_key tail in
    let size : length (pre ++ (sent ++ rest)) ≡ length pre + (length tail + length rest) =
      omega (arith, length-append pre (sent ++ rest), length-append sent rest, n) in
    let small = small_word (length tail) (omega arith) in
    let sum = small_word (length pre + length tail) fits in
    let whole =
      enough (length (pre ++ (sent ++ rest))) (length pre + length tail) (omega (arith, size)) in
    let front = take-append (length pre) pre (sent ++ rest) refl in
    let back = drop-append (length pre) pre (sent ++ rest) refl in
    let behind =
      sym (
        drop-drop (length pre) (length tail) (length pre + length tail) (pre ++ (sent ++ rest))
          refl)
      ∙ ap (drop (length tail)) back
      ∙ drop-append (length tail) sent rest n in
    rw (
      e,
      es,
      el,
      masked,
      small,
      sum,
      whole,
      front,
      back,
      behind,
      take-append (length tail) sent rest n,
      mask-mask s.masking_key tail hk hb,
    )
