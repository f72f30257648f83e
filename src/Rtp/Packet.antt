-- ===== src/Rtp/Packet.antt =====
-- src/net/rtprtcp/rtp_packet.hpp and rtp_packet.cpp. A packet is its header, the struct RtpCommonHeader
-- decoded, and the memory behind the header's 12 bytes up to the end of the buffer. Pointers are offsets
-- from there. The two maps keep the last element stored under an id first. local_ms, need_delete, the
-- debug flag and the logger are left out.
pub mod Finding
pub mod Extensions
pub mod Rtx
pub mod Elements
pub mod Safety
mod Tests
use cpp_streamer.Base.{
  ℕ, zero, suc, ◌+◌, ◌-◌, ◌*◌, ◌/◌, ◌%◌, ◌^◌, ◌≤◌, ◌<◌, min, bit_and, bit_or, bit_xor,
}
use cpp_streamer.Base.{
  ◌≡◌, refl, sym, ap, ◌∙◌, ◌≢◌, ◌⊎◌, inl, inr, Bool, true, false, not, ◌&&◌, ◌||◌,
}
use cpp_streamer.Base.{
  Option, none, some, List, [], ◌∷◌, ◌++◌, map, append_assoc, append-nil, arith,
}
use cpp_streamer.Base.{ltb, leb, ◌==◌, if◌then◌else◌, ltb→lt, lt→ltb, leb→le, Bool-cases, IsByte}
use cpp_streamer.Base.{length, get_elem?, take, drop, All, length-append, length-take, length-drop}
use cpp_streamer.Base.Outcome.{Outcome, done, throws, fault, ◌>>=◌, access}
use cpp_streamer.Utils.ByteStream.{
  read2_bytes, read3_bytes, read4_bytes, write2_bytes, write3_bytes, write4_bytes,
}

-- RTP_PACKET_MAX_SIZE
abbrev pub max_size : ℕ
max_size = 1500

pub record Header : Type 0 where
  pub csrc_count : ℕ
  pub extension : Bool
  pub padding : Bool
  pub version : ℕ
  pub payload_type : ℕ
  pub marker : ℕ
  pub sequence : ℕ
  pub timestamp : ℕ
  pub ssrc : ℕ

-- The bit fields of the first two bytes, and the fields in network order.
pub read_header : List ℕ → Option (Header × List ℕ)
read_header (a ∷ b ∷ c ∷ d ∷ e ∷ f ∷ g ∷ h ∷ i ∷ j ∷ k ∷ l ∷ body) = some (
  record {
    csrc_count = a % 16;
    extension = a / 16 % 2 == 1;
    padding = a / 32 % 2 == 1;
    version = a / 64 % 4;
    payload_type = b % 128;
    marker = b / 128 % 2;
    sequence = c * 256 + d;
    timestamp = e * 0x1000000 + f * 0x10000 + g * 0x100 + h;
    ssrc = i * 0x1000000 + j * 0x10000 + k * 0x100 + l;
  },
  body,
)
read_header short = none

abbrev bit : Bool → ℕ
bit b = if b then 1 else 0

-- The same struct as it stands in memory.
pub header_bytes : Header → List ℕ
unfolding write2_bytes write4_bytes
header_bytes h =
    (h.csrc_count + bit h.extension * 16 + bit h.padding * 32 + h.version * 64)
    ∷ (h.payload_type + h.marker * 128)
    ∷ (write2_bytes h.sequence ++ (write4_bytes h.timestamp ++ write4_bytes h.ssrc))

pub record RtpPacket : Type 0 where
  pub header : Header
  pub body : List ℕ
  pub ext : Option ℕ
  pub payload : ℕ
  pub payload_len : ℕ
  pub pad_len : ℕ
  pub data_len : ℕ
  pub mid_extension_id : ℕ
  pub abs_time_extension_id : ℕ
  pub onebyte_ext_map : List (ℕ × ℕ)
  pub twobytes_ext_map : List (ℕ × ℕ)

-- GetData() up to the end of the buffer.
pub memory : RtpPacket → List ℕ
unfolding header_bytes
memory p = header_bytes p.header ++ p.body

pub set_payload_type : ℕ → RtpPacket → RtpPacket
set_payload_type type p = record p { header = record p.header { payload_type = type % 128 } }

pub set_seq : ℕ → RtpPacket → RtpPacket
set_seq seq p = record p { header = record p.header { sequence = seq % 2 ^ 16 } }

pub set_ssrc : ℕ → RtpPacket → RtpPacket
set_ssrc ssrc p = record p { header = record p.header { ssrc = ssrc % 2 ^ 32 } }

pub clear_padding : RtpPacket → RtpPacket
clear_padding p = record p { header = record p.header { padding = false } }

-- Both read two bytes; the length is a uint16_t.
pub get_ext_id : Option ℕ → List ℕ → Outcome ℕ
get_ext_id none body = done 0
get_ext_id (some ext) body = access (read2_bytes (drop ext body))

pub get_ext_length : Option ℕ → List ℕ → Outcome ℕ
get_ext_length none body = done 0
get_ext_length (some ext) body = do
  words ← access (read2_bytes (drop (ext + 2) body))
  done (words * 4 % 2 ^ 16)

pub skip_zeros : ℕ → List ℕ → ℕ × List ℕ
skip_zeros p [] = (p, [])
skip_zeros p (b ∷ rest) =
    let more = skip_zeros (p + 1) rest in if b == 0 then more else (p, b ∷ rest)

-- One round of a loop over the extension: it ends, throws, or goes on at a later offset.
pub data Step : Type 0 where
  stop bad : Step
  next : ℕ → List ℕ → List (ℕ × ℕ) → Step

abbrev pub after_zeros : ℕ × List ℕ → List (ℕ × ℕ) → Step
after_zeros (p, rest) m = next p rest m

pub onebyte_step : ℕ → List ℕ → List (ℕ × ℕ) → Step
unfolding skip_zeros
onebyte_step p [] m = stop
onebyte_step p (b ∷ rest) m =
    let id = bit_and b 0xf0 / 16 in
    let len = bit_and b 0x0f + 1 in
    if id == 15
    then stop
    else if id == 0
    then after_zeros (skip_zeros (p + 1) rest) m
    else if ltb (length rest) len
    then bad
    else after_zeros (skip_zeros (p + 1 + len) (drop len rest)) ((id, p) ∷ m)

-- The bytes from `p` to `ext_end`; the loop needs two of them.
pub twobytes_step : ℕ → List ℕ → List (ℕ × ℕ) → Step
unfolding skip_zeros
twobytes_step p [] m = stop
twobytes_step p (id ∷ []) m = stop
twobytes_step p (id ∷ len ∷ rest) m =
    if id == 0
    then after_zeros (skip_zeros (p + 1) (len ∷ rest)) m
    else if ltb (length rest) len
    then bad
    else after_zeros (skip_zeros (p + 2 + len) (drop len rest)) ((id, p) ∷ m)

-- A loop, with the rounds that it may make; `fault` is rounds run out.
pub ext_loop :
    (ℕ → List ℕ → List (ℕ × ℕ) → Step) → ℕ → ℕ → List ℕ → List (ℕ × ℕ) → Outcome (List (ℕ × ℕ))
ext_loop step zero p rest m = fault
ext_loop step (suc fuel) p rest m = elim (step p rest m) [
  | stop ↦ done m
  | bad ↦ throws
  | next p' rest' m' ↦ ext_loop step fuel p' rest' m'
]

-- The elements from `ext_start` to `ext_end`; a round takes a byte at least.
pub parse_elements : (ℕ → List ℕ → List (ℕ × ℕ) → Step) → ℕ → List ℕ → Outcome (List (ℕ × ℕ))
unfolding ext_loop get_ext_length
parse_elements step ext body = do
  len ← get_ext_length (some ext) body
  let elements = take len (drop (ext + 4) body)
  ext_loop step (suc (length elements)) (ext + 4) elements []

pub has_onebyte_ext : ℕ → Bool
has_onebyte_ext id = id == 0xbede

pub has_twobytes_ext : ℕ → Bool
has_twobytes_ext id = bit_and id 0xfff0 == 0x1000

pub parse_ext_at : ℕ → RtpPacket → Outcome RtpPacket
unfolding get_ext_id has_onebyte_ext has_twobytes_ext parse_elements onebyte_step twobytes_step
parse_ext_at ext p = do
  id ← get_ext_id (some ext) p.body
  if has_onebyte_ext id
      then (do m ← parse_elements onebyte_step ext p.body; done (record p { onebyte_ext_map = m }))
      else if has_twobytes_ext id
      then (do
        m ← parse_elements twobytes_step ext p.body
        done (record p { twobytes_ext_map = m }))
      else throws

pub parse_ext : RtpPacket → Outcome RtpPacket
unfolding parse_ext_at
parse_ext p = elim p.ext [
  | none ↦ done p
  | some ext ↦ if p.header.extension then parse_ext_at ext p else done p
]

-- The extension's offset, if there is one, and the offset behind it; `len` counts from the body on.
pub find_ext : Header → ℕ → List ℕ → Outcome (Option ℕ × ℕ)
find_ext h len body =
    let p = 4 * h.csrc_count in
    if h.extension
    then (if ltb len (p + 4) then throws else (do
      words ← access (read2_bytes (drop (p + 2) body))
      if ltb len (p + 4 + words * 4) then throws else done (some p, p + 4 + words * 4)))
    else done (none, p)

-- The payload's length and the padding's.
pub find_padding : Header → ℕ → List ℕ → ℕ → Outcome (ℕ × ℕ)
find_padding h len body payload_len =
    if h.padding
    then (do
      pad_len ← access (get_elem? body (len - 1))
      if leb payload_len pad_len && ltb 0 pad_len
          then throws
          else done (payload_len - pad_len, pad_len))
    else done (payload_len, 0)

pub parse_body : Header → ℕ → List ℕ → Outcome RtpPacket
unfolding find_ext find_padding parse_ext
parse_body h len body = do
  (ext, p) ← find_ext h len body
  if leb len p then throws else (do
    (payload_len, pad_len) ← find_padding h len body (len - p)
    parse_ext (record {
      header = h;
      body = body;
      ext = ext;
      payload = p;
      payload_len = payload_len;
      pad_len = pad_len;
      data_len = 12 + len;
      mid_extension_id = 0;
      abs_time_extension_id = 0;
      onebyte_ext_map = [];
      twobytes_ext_map = [];
    }))

-- Parse on the buffer `bytes` with `len` bytes received. A packet shorter than a header throws on every
-- way, once its first byte has been read.
pub parse : ℕ → List ℕ → Outcome RtpPacket
unfolding parse_body read_header
parse len bytes =
    if ltb max_size len
    then throws
    else if leb (length bytes) 0
    then fault
    else if ltb len 12
    then throws
    else (do (h, body) ← access (read_header bytes); parse_body h (len - 12) body)
