-- ===== src/Rtp/Packet/Extensions.antt =====
-- src/net/rtprtcp/rtp_packet.cpp: the elements of the header extension read and written in place
-- (GetExtension, ReadAbsTime, UpdateAbsTime, UpdateMid, UpdateExtensionLength), and Clone.
pub mod Values
mod Tests
use cpp_streamer.Base.{
  ℕ, zero, suc, ◌+◌, ◌-◌, ◌*◌, ◌/◌, ◌%◌, ◌^◌, ◌≤◌, ◌<◌, min, bit_and, bit_or, bit_xor,
}
use cpp_streamer.Base.{
  ◌≡◌, refl, sym, ap, ◌∙◌, ◌≢◌, ◌⊎◌, inl, inr, Bool, true, false, not, ◌&&◌, ◌||◌,
}
use cpp_streamer.Base.{
  Option, none, some, List, [], ◌∷◌, ◌++◌, map, append_assoc, append-nil, arith,
}
use cpp_streamer.Base.{
  ltb, leb, ◌==◌, if◌then◌else◌, ltb→lt, lt→ltb, leb→le, Bool-cases, Option-cases, IsByte,
}
use cpp_streamer.Base.{length, get_elem?, take, drop, All, length-append, length-take, length-drop}
use cpp_streamer.Base.Outcome.{Outcome, done, throws, fault, ◌>>=◌, access}
use cpp_streamer.Utils.ByteStream.{read3_bytes, write3_bytes}
use cpp_streamer.Rtp.Packet.{
  RtpPacket, get_ext_id, has_onebyte_ext, has_twobytes_ext, parse, memory, max_size,
}

-- The map's find().
pub find_element : ℕ → List (ℕ × ℕ) → Option ℕ
find_element id [] = none
find_element id ((k, at) ∷ m) = let rest = find_element id m in if k == id then some at else rest

-- The value's offset and its length.
pub get_extension : ℕ → RtpPacket → Outcome (Option (ℕ × ℕ))
unfolding get_ext_id has_onebyte_ext has_twobytes_ext find_element
get_extension id p = do
  ext_id ← get_ext_id p.ext p.body
  if has_onebyte_ext ext_id
      then (elim (find_element id p.onebyte_ext_map) [
        | none ↦ done none
        | some at ↦ (do b ← access (get_elem? p.body at); done (some (at + 1, bit_and b 0x0f + 1)))
      ])
      else if has_twobytes_ext ext_id
      then (elim (find_element id p.twobytes_ext_map) [
        | none ↦ done none
        | some at ↦ (do
          len ← access (get_elem? p.body (at + 1))
          done (if len == 0 then none else some (at + 2, len)))
      ])
      else done none

pub read_abs_time : RtpPacket → Outcome (Option ℕ)
unfolding get_extension read3_bytes
read_abs_time p = do
  found ← get_extension p.abs_time_extension_id p
  elim found [
    | none ↦ done none
    | some (value, len) ↦ (do
      abs_time ← access (read3_bytes (drop value p.body))
      done (some abs_time))
  ]

-- memcpy and memset at an offset.
put_bytes : ℕ → List ℕ → List ℕ → Outcome (List ℕ)
put_bytes at bytes body =
    if ltb (length body) (at + length bytes)
    then fault
    else done (take at body ++ (bytes ++ drop (at + length bytes) body))

zeros : ℕ → List ℕ
zeros zero = []
zeros (suc n) = 0 ∷ zeros n

-- The bytes from the new length to the old one.
clear_rest : ℕ → ℕ → ℕ → List ℕ → Outcome (List ℕ)
unfolding put_bytes zeros
clear_rest value len current_len body =
    if ltb len current_len
    then put_bytes (value + len) (zeros (current_len - len)) body
    else done body

-- The one-byte form keeps the length less one in the four low bits.
pub update_extension_length : ℕ → ℕ → RtpPacket → Outcome (Bool × RtpPacket)
unfolding get_ext_id has_onebyte_ext has_twobytes_ext find_element put_bytes clear_rest
update_extension_length id len p = if len == 0 then done (false, p) else (do
  ext_id ← get_ext_id p.ext p.body
  if has_onebyte_ext ext_id
      then (elim (find_element id p.onebyte_ext_map) [
        | none ↦ done (false, p)
        | some at ↦ (do
          b ← access (get_elem? p.body at)
          cleared ← clear_rest (at + 1) len (bit_and b 0x0f + 1) p.body
          body ← put_bytes at ((bit_and b 0xf0 + (len - 1) % 16) ∷ []) cleared
          done (true, record p { body = body }))
      ])
      else if has_twobytes_ext ext_id
      then (elim (find_element id p.twobytes_ext_map) [
        | none ↦ done (false, p)
        | some at ↦ (do
          current_len ← access (get_elem? p.body (at + 1))
          cleared ← clear_rest (at + 2) len current_len p.body
          body ← put_bytes (at + 1) (len ∷ []) cleared
          done (true, record p { body = body }))
      ])
      else done (false, p))

-- The value is written before its length is looked at.
update_value : ℕ → List ℕ → RtpPacket → Outcome (Bool × RtpPacket)
unfolding get_extension put_bytes update_extension_length
update_value id bytes p = do
  found ← get_extension id p
  elim found [
    | none ↦ done (false, p)
    | some (value, len) ↦ (do
      body ← put_bytes value bytes p.body
      update_extension_length id (length bytes) (record p { body = body }))
  ]

pub update_abs_time : ℕ → RtpPacket → Outcome (Bool × RtpPacket)
unfolding update_value write3_bytes
update_abs_time abs_time p = update_value p.abs_time_extension_id (write3_bytes abs_time) p

-- std::to_string of a uint8_t.
abbrev digit : ℕ → ℕ
digit d = 48 + d % 10

to_string : ℕ → List ℕ
to_string n =
    if ltb n 10
    then digit n ∷ []
    else if ltb n 100
    then digit (n / 10) ∷ digit n ∷ []
    else digit (n / 100) ∷ digit (n / 10) ∷ digit n ∷ []

pub update_mid : ℕ → RtpPacket → Outcome (Bool × RtpPacket)
unfolding update_value to_string
update_mid mid p = update_value p.mid_extension_id (to_string mid) p

-- Into `buffer`, which is the caller's or a new one of 1500 bytes; the assert ends the program.
pub clone : List ℕ → RtpPacket → Outcome RtpPacket
unfolding memory parse
clone buffer p =
    if leb max_size p.data_len
    then fault
    else if ltb (length (memory p)) p.data_len || ltb (length buffer) p.data_len
    then fault
    else (do
      new_pkt ← parse p.data_len (take p.data_len (memory p) ++ drop p.data_len buffer)
      done (record new_pkt {
        mid_extension_id = p.mid_extension_id;
        abs_time_extension_id = p.abs_time_extension_id;
      }))
