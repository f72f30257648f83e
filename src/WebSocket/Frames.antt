-- ===== src/WebSocket/Frames.antt =====
-- A frame that SendWsFrame wrote, read by Parse.
use cpp_streamer.Base.{ℕ, ◌+◌, ◌%◌, ◌^◌, ◌≤◌, ◌<◌}
use cpp_streamer.Base.{◌≡◌, refl, sym, ap, ◌∙◌, inl, inr, true, false}
use cpp_streamer.Base.{some, List, [], ◌∷◌, ◌++◌, append_assoc, arith}
use cpp_streamer.Base.{ltb, leb, Bool-cases, IsByte}
use cpp_streamer.Base.{length, take, drop, All, length-append}
use cpp_streamer.Base.{take-append, drop-append, drop-drop}
use cpp_streamer.WebSocket.{
  Key, apply_mask, length_field, send_ws_frame, Frame, read_header, after_read, parse_held, parse,
}
use cpp_streamer.Utils.ByteStream.{write2_bytes, write8_bytes}
use cpp_streamer.WebSocket.Header.{
  IsKey, opened, holding, keyed, enough, header_short, header_two, header_eight, payload_sent,
}

-- The header of a frame of `n` bytes, with the key.
abbrev head : Key → ℕ → ℕ → List ℕ
head k op_code n = (128 + op_code % 16) ∷ (length_field n ++ keyed k [])

head-append :
    (k : Key) (op_code n : ℕ) (tail : List ℕ)
    → head k op_code n ++ tail ≡ (128 + op_code % 16) ∷ (length_field n ++ keyed k tail)
head-append k op_code n tail =
    ap (◌∷◌ (128 + op_code % 16)) (append_assoc (length_field n) (keyed k []) tail)

-- The header of what was sent is read whole, up to the payload.
HeaderRead : Key → ℕ → ℕ → List ℕ → Frame → Type 0
HeaderRead k op_code n tail s =
    let wire = (128 + op_code % 16) ∷ (length_field n ++ keyed k tail) in
    read_header wire (holding wire s)
    ≡ some (true, opened k op_code (length (head k op_code n)) n (holding wire s))

header_sent :
    (k : Key) (op_code n : ℕ) (tail : List ℕ) (s : Frame)
    → n < 2 ^ 63
    → HeaderRead k op_code n tail s
unfolding HeaderRead length_field write2_bytes write8_bytes
header_sent k op_code n tail s h = elim (Bool-cases (leb 126 n)) [
  | inl long ↦ elim (Bool-cases (ltb 65535 n)) [
    | inl eight ↦ rw (long, eight) (header_eight k op_code n tail s (omega arith))
    | inr two ↦ rw (long, two) (header_two k op_code n tail s (ground arith))
  ]
  | inr short ↦ rw short (header_short k op_code n tail s (ground arith))
]

-- The frame has been read: its fields, its payload, and what lies behind it.
pub record Received (op_code : ℕ) (bytes rest : List ℕ) (t : Frame) : Type 0 where
  pub op : t.opcode ≡ op_code % 16
  pub last : t.fin ≡ true
  pub count : t.payload_len ≡ length bytes
  pub payload : take t.payload_len (drop t.payload_start t.buffer) ≡ bytes
  pub behind : drop (t.payload_start + t.payload_len) t.buffer ≡ rest

received :
    (k : Key) (op_code : ℕ) (bytes rest pre : List ℕ) (s : Frame)
    → Received op_code bytes rest (record (opened k op_code (length pre) (length bytes) s) {
      buffer = pre ++ (bytes ++ rest);
    })
received k op_code bytes rest pre s =
    let back = drop-append (length pre) pre (bytes ++ rest) refl in
    record {
      op = refl;
      last = refl;
      count = refl;
      payload = ap (take (length bytes)) back ∙ take-append (length bytes) bytes rest refl;
      behind =
          sym (
            drop-drop (length pre) (length bytes) (length pre + length bytes)
              (pre ++ (bytes ++ rest)) refl)
          ∙ ap (drop (length bytes)) back
          ∙ drop-append (length bytes) bytes rest refl;
    }

head_size : (k : Key) (op_code n : ℕ) → length (head k op_code n) ≤ 14
unfolding length_field write2_bytes write8_bytes
head_size k op_code n = ground arith

-- What Parse does with the whole of a frame in its buffer.
parse_whole :
    (k : Key) (op_code : ℕ) (bytes rest : List ℕ) (s : Frame)
    → IsKey k
    → All IsByte bytes
    → length bytes < 2 ^ 31
    → s.header_ready ≡ false
    → (let wire =
          (128 + op_code % 16)
          ∷ (length_field (length bytes) ++ keyed k (apply_mask k bytes ++ rest)) in
        (t : Frame) × (parse_held (holding wire s) ≡ some (0, t)) × Received op_code bytes rest t)
unfolding parse_held after_read HeaderRead
parse_whole k op_code bytes rest s hk hb small closed =
    let n : ℕ = length bytes in
    let pre : List ℕ = head k op_code n in
    let tail : List ℕ = apply_mask k bytes ++ rest in
    let wire : List ℕ = (128 + op_code % 16) ∷ (length_field n ++ keyed k tail) in
    let long : ltb (length wire) 2 ≡ false =
      enough (length wire) 2 (omega (arith, length-append (length_field n) (keyed k tail))) in
    let header : read_header wire (holding wire s)
        ≡ some (true, opened k op_code (length pre) n (holding wire s)) =
      header_sent k op_code n tail s (omega arith) in
    let payload =
      payload_sent pre bytes rest (opened k op_code (length pre) n (holding wire s)) hk hb refl refl
        refl (omega (arith, head_size k op_code n)) (sym (head-append k op_code n tail)) in
    (
      record (opened k op_code (length pre) n s) { buffer = pre ++ (bytes ++ rest) },
      rw (long, header, closed) payload,
      received k op_code bytes rest pre s,
    )

-- Let a payload be not empty, of bytes, and shorter than 2^31. A parser that holds no bytes and no
-- header, and receives what SendWsFrame writes for it, with any key of bytes, and then `rest`, reports
-- a whole frame. It is final, has the low four bits of the operation code and the payload's length, the
-- payload in the buffer is unmasked, and `rest` lies behind it.
pub parse-send_ws_frame :
    (k : Key) (op_code : ℕ) (bytes rest : List ℕ) (s : Frame)
    → IsKey k
    → All IsByte bytes
    → 0 < length bytes
    → length bytes < 2 ^ 31
    → s.buffer ≡ []
    → s.header_ready ≡ false
    → (wire : List ℕ) × (send_ws_frame k op_code bytes ≡ some wire)
      × ((t : Frame) × (parse (wire ++ rest) s ≡ some (0, t)) × Received op_code bytes rest t)
unfolding send_ws_frame parse
parse-send_ws_frame k op_code [] rest s hk hb some_bytes small empty closed = absurd (omega arith)
parse-send_ws_frame k op_code (x ∷ xs) rest s hk hb some_bytes small empty closed =
    let bytes : List ℕ = x ∷ xs in
    let (t, e, r) = parse_whole k op_code bytes rest s hk hb small closed in
    let wire : List ℕ =
      (128 + op_code % 16) ∷ (length_field (length bytes) ++ keyed k (apply_mask k bytes)) in
    let joined =
      ap (λ b. b ++ (wire ++ rest)) empty
      ∙ ap (◌∷◌ (128 + op_code % 16))
          (append_assoc (length_field (length bytes)) (keyed k (apply_mask k bytes)) rest) in
    (wire, refl, (t, ap (λ b. parse_held (holding b s)) joined ∙ e, r))
