-- ===== src/WebSocket.antt =====
-- src/net/http/websocket: websocket_frame.cpp takes a frame apart, and SendWsFrame of
-- websocket_session.cpp and websocket_client.cpp puts one together. The frame's buffer is a byte queue.
-- `payload_len` is the 64 bits of payload_len_, negative from 2^63 on. `none` is undefined behaviour: a
-- store outside the bytes held, a sum past the int64_t range, or the first element of an empty vector.
pub mod Lengths
pub mod Parts
pub mod Header
pub mod Xor
pub mod Frames
pub mod Overrun
pub mod Stream
mod Tests
use cpp_streamer.Base.{
  ℕ, zero, suc, ◌+◌, ◌-◌, ◌*◌, ◌/◌, ◌%◌, ◌^◌, ◌≤◌, ◌<◌, min, bit_and, bit_or, bit_xor,
}
use cpp_streamer.Base.{
  ◌≡◌, refl, sym, ap, ◌∙◌, ◌≢◌, ◌⊎◌, inl, inr, Bool, true, false, not, ◌&&◌, ◌||◌,
}
use cpp_streamer.Base.{
  Option, none, some, List, [], ◌∷◌, ◌++◌, map, append_assoc, append-nil, arith,
}
use cpp_streamer.Base.{
  ltb, leb, ◌==◌, if◌then◌else◌, ◌>>=◌, ltb→lt, lt→ltb, leb→le, Bool-cases, Option-cases,
  >>=-eq-some, IsByte,
}
use cpp_streamer.Base.{length, get_elem?, take, drop, All, length-append, length-take, length-drop}
use cpp_streamer.Base.{take-append-drop, take-append, drop-append, take-all, drop-drop, All-append}
use cpp_streamer.Utils.ByteStream.{read2_bytes, read8_bytes, write2_bytes, write8_bytes}

-- masking_key_
pub record Key : Type 0 where
  pub k0 : ℕ
  pub k1 : ℕ
  pub k2 : ℕ
  pub k3 : ℕ

-- The two loops that mask a payload: four bytes a round, and then the rest.
pub apply_mask : Key → List ℕ → List ℕ
apply_mask k (a ∷ b ∷ c ∷ d ∷ rest) =
    bit_xor a k.k0 ∷ bit_xor b k.k1 ∷ bit_xor c k.k2 ∷ bit_xor d k.k3 ∷ apply_mask k rest
apply_mask k (a ∷ b ∷ c ∷ []) = bit_xor a k.k0 ∷ bit_xor b k.k1 ∷ bit_xor c k.k2 ∷ []
apply_mask k (a ∷ b ∷ []) = bit_xor a k.k0 ∷ bit_xor b k.k1 ∷ []
apply_mask k (a ∷ []) = bit_xor a k.k0 ∷ []
apply_mask k [] = []

-- The second byte of the header, with the mask bit set, and the extended length.
pub length_field : ℕ → List ℕ
length_field len =
    if leb 126 len
    then (if ltb 65535 len then (128 + 127) ∷ write8_bytes len else (128 + 126) ∷ write2_bytes len)
    else (128 + len) ∷ []

-- SendWsFrame, what it writes in all; the key is four random bytes.
pub send_ws_frame : Key → ℕ → List ℕ → Option (List ℕ)
unfolding length_field apply_mask
send_ws_frame k op_code [] = none
send_ws_frame k op_code (x ∷ xs) = some (
    (128 + op_code % 16)
    ∷ (length_field (length (x ∷ xs)) ++ k.k0 ∷ k.k1 ∷ k.k2 ∷ k.k3 ∷ apply_mask k (x ∷ xs)))

pub record Frame : Type 0 where
  pub buffer : List ℕ
  pub payload_start : ℕ
  pub payload_len : ℕ
  pub opcode : ℕ
  pub mask_enable : Bool
  pub fin : Bool
  pub header_ready : Bool
  pub masking_key : Key

-- The state, and whether what has been read so far was there. First the extended length, in the bytes
-- `rest` behind the first two.
pub read_length : ℕ → List ℕ → Frame → Option (Bool × Frame)
read_length len rest s =
    if len == 127
    then (if ltb (length s.buffer) 10 then some (false, s) else (do
      ext_len ← read8_bytes rest
      some (true, record s { payload_len = ext_len; payload_start = s.payload_start + 8 })))
    else if len == 126
    then (if ltb (length s.buffer) 4 then some (false, s) else (do
      ext_len ← read2_bytes rest
      some (true, record s { payload_len = ext_len; payload_start = s.payload_start + 2 })))
    else some (true, s)

pub take_key : List ℕ → Frame → Option (Bool × Frame)
take_key (a ∷ b ∷ c ∷ d ∷ rest) s = some (
  true,
  record s {
    payload_start = s.payload_start + 4;
    masking_key = record { k0 = a; k1 = b; k2 = c; k3 = d };
    header_ready = true;
  },
)
take_key short s = none

pub read_mask : Bool → Bool × Frame → Option (Bool × Frame)
unfolding take_key
read_mask mask (false, s) = some (false, s)
read_mask mask (true, s) =
    if mask
    then (if ltb (length s.buffer) (s.payload_start + 4)
        then some (false, record s { mask_enable = mask })
        else take_key (drop s.payload_start s.buffer) (record s { mask_enable = mask }))
    else some (true, record s { mask_enable = mask; header_ready = true })

pub read_header : List ℕ → Frame → Option (Bool × Frame)
unfolding read_length read_mask
read_header (b0 ∷ b1 ∷ rest) s =
    read_length (b1 % 128) rest (record s {
      payload_len = b1 % 128;
      payload_start = 2;
      fin = b0 / 128 % 2 == 1;
      opcode = b0 % 16;
    })
    >>= read_mask (b1 / 128 % 2 == 1)
read_header short s = none

-- `payload_start_ + payload_len_` is past the int64_t range.
abbrev pub sum_overflows : Frame → Bool
sum_overflows s = not (leb (2 ^ 63) s.payload_len) && leb (2 ^ 63) (s.payload_start + s.payload_len)

-- The test for bytes that have not come, which a negative length passes.
abbrev pub is_short : Frame → Bool
is_short s =
    not (leb (2 ^ 63) s.payload_len) && ltb (length s.buffer) (s.payload_start + s.payload_len)

-- The mask taken off in place; here `none` is a store outside the bytes held.
abbrev pub unmask : Frame → Option Frame
unfolding apply_mask
unmask s =
    let stop = s.payload_start + s.payload_len in
    if ltb (length s.buffer) stop
    then none
    else some (record s {
      buffer =
          take s.payload_start s.buffer
          ++ (apply_mask s.masking_key (take s.payload_len (drop s.payload_start s.buffer))
              ++ drop stop s.buffer);
    })

-- The tail of Parse, which returns 1 for more and 0 for a whole frame.
pub read_payload : Frame → Option (ℕ × Frame)
unfolding apply_mask unmask
read_payload s =
    if sum_overflows s
    then none
    else if is_short s
    then some (1, s)
    else if not s.mask_enable
    then some (0, s)
    else unmask s >>= (λ t. some (0, t))

pub after_read : Bool × Frame → Option (ℕ × Frame)
unfolding read_payload
after_read (false, s) = some (1, s)
after_read (true, s) = read_payload s

-- Parse once the bytes have been appended.
pub parse_held : Frame → Option (ℕ × Frame)
unfolding read_header after_read
parse_held s =
    if ltb (length s.buffer) 2
    then some (1, s)
    else if s.header_ready
    then read_payload s
    else read_header s.buffer s >>= after_read

pub parse : List ℕ → Frame → Option (ℕ × Frame)
unfolding parse_held
parse bytes s = parse_held (record s { buffer = s.buffer ++ bytes })

pub payload_is_ready : Frame → Bool
payload_is_ready s =
    let n = s.payload_len % 2 ^ 32 in
    if ltb n (2 ^ 31)
    then leb (n + s.payload_start) (length s.buffer)
    else leb (n + s.payload_start) (length s.buffer + 2 ^ 32)

pub consume : ℕ → Frame → Frame
consume len s = if leb len (length s.buffer) then record s { buffer = drop len s.buffer } else s

pub reset : Frame → Frame
reset s = record s { payload_start = 0; payload_len = 0; header_ready = false }
