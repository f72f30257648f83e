-- ===== src/Rtp/FbNack.antt =====
-- src/net/rtprtcp/rtcpfb_nack.hpp: the RTCP packet that asks for lost packets again. `bytes` are the
-- first `data_len` bytes of `data`, and `blocks` the packet id and bitmap of each block there, in host
-- order. `none` is undefined behaviour: a block past the 1500 bytes of `data`, a shift by a negative
-- number or past the sign bit, or a block that is cut off.
pub mod Wire
pub mod Laws
mod Tests
use cpp_streamer.Base.{
  ℕ, zero, suc, ◌+◌, ◌-◌, ◌*◌, ◌/◌, ◌%◌, ◌^◌, ◌≤◌, ◌<◌, min, bit_and, bit_or, bit_xor,
}
use cpp_streamer.Base.{
  ◌≡◌, refl, sym, ap, ◌∙◌, ◌≢◌, ◌⊎◌, inl, inr, Bool, true, false, not, ◌&&◌, ◌||◌,
}
use cpp_streamer.Base.{
  Option, none, some, List, [], ◌∷◌, ◌++◌, map, append_assoc, append-nil, arith,
}
use cpp_streamer.Base.{
  ltb, leb, ◌==◌, if◌then◌else◌, ◌>>=◌, ltb→lt, lt→ltb, leb→le, Bool-cases, IsByte,
}
use cpp_streamer.Base.{length, get_elem?, take, drop, All, length-append, length-take, length-drop}
use cpp_streamer.Base.{take-append-drop, take-append, drop-append, take-all, drop-drop, All-append}
use cpp_streamer.Utils.ByteStream.{write2_bytes, write4_bytes}

pub record FbNack : Type 0 where
  pub bytes : List ℕ
  pub blocks : List (ℕ × ℕ)

-- RtcpFbNack(sender_ssrc, media_ssrc): version 2, no padding, format 1, type 205.
pub new_fb_nack : ℕ → ℕ → FbNack
unfolding write2_bytes write4_bytes
new_fb_nack sender_ssrc media_ssrc = record {
  bytes =
      0x81
      ∷ 205
      ∷ (write2_bytes (12 / 4 - 1) ++ write4_bytes sender_ssrc ++ write4_bytes media_ssrc);
  blocks = [];
}

-- 1 << (16 - (seq - packet_id)), cut to 16 bits.
lost_bit : ℕ → ℕ → Option ℕ
lost_bit packet_id seq =
    if leb packet_id seq
    then (if leb (seq - packet_id) 16 then some (2 ^ (16 - (seq - packet_id)) % 65536) else none)
    else if leb (packet_id - seq) 14
    then some 0
    else none

pub lost_bitmap : ℕ → ℕ → List ℕ → Option ℕ
lost_bitmap packet_id bitmap [] = some bitmap
lost_bitmap packet_id bitmap (seq ∷ seqs) = do
  bit ← lost_bit packet_id seq
  lost_bitmap packet_id (bit_or bitmap bit % 65536) seqs

-- The length field counts 32-bit words less one.
pub set_length : List ℕ → List ℕ
set_length bytes = take 2 bytes ++ write2_bytes ((length bytes / 4 - 1) % 65536) ++ drop 4 bytes

-- InsertBlock on `report_seqs`, which is not empty.
pub insert_block : ℕ → List ℕ → FbNack → Option FbNack
unfolding lost_bitmap lost_bit set_length write2_bytes
insert_block packet_id seqs p = do
  bitmap ← lost_bitmap packet_id 0 seqs
  if leb (length p.bytes + 4) 1500
      then some (record {
        bytes = set_length (p.bytes ++ (write2_bytes packet_id ++ write2_bytes bitmap));
        blocks = p.blocks ++ (packet_id, bitmap) ∷ [];
      })
      else none

-- The loop of InsertSeqList; the first of `report_seqs` stands apart, `none` for an empty list.
insert_seqs : Option (ℕ × List ℕ) → List ℕ → FbNack → Option FbNack
insert_seqs none [] p = some p
insert_seqs (some (first, more)) [] p = insert_block first more p
insert_seqs none (seq ∷ seqs) p = insert_seqs (some (seq, [])) seqs p
insert_seqs (some (first, more)) (seq ∷ seqs) p = elim (ltb (first + 16) seq) [
  | true ↦ insert_block first (more ++ seq ∷ []) p >>= insert_seqs none seqs
  | false ↦ insert_seqs (some (first, more ++ seq ∷ [])) seqs p
]

pub insert_seq_list : List ℕ → FbNack → Option FbNack
unfolding insert_seqs
insert_seq_list seqs p = insert_seqs none seqs p

-- The loop over `bit_mask`, of 16 bits at most; `seq` is a uint16_t.
lost_from : ℕ → ℕ → ℕ → List ℕ
lost_from zero bit_mask seq = []
lost_from (suc fuel) bit_mask seq =
    let rest = lost_from fuel (bit_mask / 2) ((seq + 1) % 65536) in
    if bit_mask == 0 then [] else if bit_mask % 2 == 1 then seq ∷ rest else rest

pub get_lost_seqs : List (ℕ × ℕ) → List ℕ
unfolding lost_from
get_lost_seqs [] = []
get_lost_seqs ((packet_id, bitmap) ∷ blocks) =
    packet_id ∷ lost_from 16 bitmap ((packet_id + 1) % 65536) ++ get_lost_seqs blocks

-- The loop of UpdateData over the bytes behind the header.
pub read_blocks : List ℕ → Option (List (ℕ × ℕ))
read_blocks [] = some []
read_blocks (a ∷ b ∷ c ∷ d ∷ rest) = do
  blocks ← read_blocks rest
  some ((a * 256 + b, c * 256 + d) ∷ blocks)
read_blocks short = none

-- Parse: a packet of 12 bytes or fewer gives nullptr, here `some none`.
pub parse : List ℕ → Option (Option FbNack)
unfolding read_blocks
parse bytes =
    if leb (length bytes) 12 then some none else if ltb 1500 (length bytes) then none else (do
      blocks ← read_blocks (drop 12 bytes)
      some (some (record { bytes = bytes; blocks = blocks })))
