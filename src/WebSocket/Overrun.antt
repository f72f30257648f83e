-- ===== src/WebSocket/Overrun.antt =====
-- Frames whose length Parse takes for negative.
use cpp_streamer.Base.{ℕ, ◌/◌, ◌==◌, ◌+◌, ◌%◌, ◌^◌, ◌≤◌, ◌<◌}
use cpp_streamer.Base.{◌≡◌, refl, ap, ◌∙◌, true, false}
use cpp_streamer.Base.{none, some, List, [], ◌∷◌, ◌++◌, arith}
use cpp_streamer.Base.{ltb, leb}
use cpp_streamer.Base.{length}
use cpp_streamer.WebSocket.{
  Key, Frame, read_length, read_mask, read_header, sum_overflows, is_short, unmask, read_payload,
  after_read, parse_held, parse,
}
use cpp_streamer.Utils.ByteStream.Laws.{read8-write8}
use cpp_streamer.WebSocket.Header.{opened, keyed, holding, header_eight, enough}
use cpp_streamer.Utils.ByteStream.{write8_bytes}

wire_size :
    (k : Key) (op_code n : ℕ) (tail : List ℕ)
    → length ((128 + op_code % 16) ∷ 255 ∷ (write8_bytes n ++ keyed k tail)) ≡ 14 + length tail
unfolding write8_bytes
wire_size k op_code n tail = omega arith

-- The state once the header of a frame without a mask has been read.
abbrev pub bare : ℕ → ℕ → Frame → Frame
bare op_code n s = record s {
  payload_start = 10;
  payload_len = n;
  opcode = op_code % 16;
  mask_enable = false;
  fin = true;
  header_ready = true;
}

low_op : (op_code : ℕ) → (128 + op_code % 16) % 16 ≡ op_code % 16
low_op op_code = omega arith

top_fin : (op_code : ℕ) → ((128 + op_code % 16) / 128 % 2 == 1) ≡ true
top_fin op_code = ground arith

header_bare :
    (op_code n : ℕ) (tail : List ℕ) (s : Frame)
    → n < 2 ^ 64
    → (let wire = (128 + op_code % 16) ∷ 127 ∷ (write8_bytes n ++ tail) in
        read_header wire (holding wire s) ≡ some (true, bare op_code n (holding wire s)))
unfolding read_header read_length read_mask write8_bytes
header_bare op_code n tail s h =
    let small : n % 2 ^ 64 ≡ n = omega arith in
    rw (
      read8-write8 n tail,
      small,
      low_op op_code,
      top_fin op_code,
      enough (length (0 ∷ 0 ∷ 0 ∷ 0 ∷ 0 ∷ 0 ∷ 0 ∷ 0 ∷ 0 ∷ 0 ∷ tail)) 10 (omega arith),
    )

bare_size :
    (op_code n : ℕ) (tail : List ℕ)
    → length ((128 + op_code % 16) ∷ 127 ∷ (write8_bytes n ++ tail)) ≡ 10 + length tail
unfolding write8_bytes
bare_size op_code n tail = omega arith

parse-bare :
    (op_code n : ℕ) (tail : List ℕ) (s : Frame)
    → 2 ^ 63 ≤ n
    → n < 2 ^ 64
    → s.buffer ≡ []
    → s.header_ready ≡ false
    → (let wire = (128 + op_code % 16) ∷ 127 ∷ (write8_bytes n ++ tail) in
        parse wire s ≡ some (0, bare op_code n (holding wire s)))
unfolding parse parse_held after_read read_payload
parse-bare op_code n tail s lo hi empty closed =
    let wire : List ℕ = (128 + op_code % 16) ∷ 127 ∷ (write8_bytes n ++ tail) in
    let header : read_header wire (holding wire s) ≡ some (true, bare op_code n (holding wire s)) =
      header_bare op_code n tail s hi in
    let long : ltb (length wire) 2 ≡ false = ground (arith, bare_size op_code n tail) in
    let negative : leb (2 ^ 63) n ≡ true = ground arith in
    ap (λ b. parse_held (holding (b ++ wire) s)) empty ∙ rw (long, header, closed, negative) refl

-- A header that gives a length of 2^63 or more, which is negative as an int64_t, in a frame that begins
-- with it, whatever few or many bytes come behind, fewer than 2^31, at a parser that holds nothing.
-- Without a mask Parse returns 0: the frame counts as whole, with that length, although not that many bytes
-- have come. With a mask and its key, too, the header is read, the sum of the lengths does not overflow and
-- the test for missing bytes is passed, so that Parse goes on to take the mask off; this reaches past the
-- bytes held, and Parse has undefined behaviour.
pub parse_huge :
    (k : Key) (op_code n : ℕ) (tail : List ℕ) (s : Frame)
    → 2 ^ 63 ≤ n
    → n < 2 ^ 64
    → length tail < 2 ^ 31
    → s.buffer ≡ []
    → s.header_ready ≡ false
    → (let wire = (128 + op_code % 16) ∷ 127 ∷ (write8_bytes n ++ tail) in
        let masked = (128 + op_code % 16) ∷ 255 ∷ (write8_bytes n ++ keyed k tail) in
        let t = opened k op_code 14 n (holding masked s) in
        (parse wire s ≡ some (0, bare op_code n (holding wire s)))
        × (length wire < 10 + n)
        × (read_header masked (holding masked s) ≡ some (true, t))
        × (sum_overflows t ≡ false)
        × (is_short t ≡ false)
        × (unmask t ≡ none)
        × (parse masked s ≡ none))
unfolding parse parse_held after_read read_payload
parse_huge k op_code n tail s lo hi small empty closed =
    let wire : List ℕ = (128 + op_code % 16) ∷ 255 ∷ (write8_bytes n ++ keyed k tail) in
    let size : length wire ≡ 14 + length tail = wire_size k op_code n tail in
    let header : read_header wire (holding wire s)
        ≡ some (true, opened k op_code 14 n (holding wire s)) =
      header_eight k op_code n tail s hi in
    let long : ltb (length wire) 2 ≡ false = ground (arith, size) in
    let negative : leb (2 ^ 63) n ≡ true = ground arith in
    let over : ltb (length wire) (14 + n) ≡ true = ground (arith, size) in
    (
      parse-bare op_code n tail s lo hi empty closed,
      omega (arith, bare_size op_code n tail),
      header,
      rw negative refl,
      rw negative refl,
      rw over refl,
      ap (λ b. parse_held (holding (b ++ wire) s)) empty
          ∙ rw (long, header, closed, negative, over) refl,
    )
