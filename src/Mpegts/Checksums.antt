-- ===== src/Mpegts/Checksums.antt =====
-- src/format/mpegts/mpegts_mux.cpp: the checksums of the tables, as a receiver tests them.
use cpp_streamer.Base.{◌+◌, ◌-◌, ◌*◌, ◌/◌, ◌%◌, ◌<◌, bit_xor, ltb}
use cpp_streamer.Base.Bits.{agree_below, agree_below→eq}
use cpp_streamer.Base.{
  ℕ, zero, suc, ◌≡◌, refl, ◌≢◌, Bool, true, false, ◌&&◌, some, List, [], ◌∷◌, ◌++◌, arith, ◌==◌,
  if◌then◌else◌, drop, take, get_elem?,
}
use cpp_streamer.Flv.{CodecType, h264, h265, vp8, vp9, aac, opus}
use cpp_streamer.Utils.ByteStream.{write2_bytes, write4_bytes}
use cpp_streamer.Mpegts.Pes.{ones}
use cpp_streamer.Mpegts.Psi.{
  PsiMuxer, crc32table, or_zero, mpeg_crc32, new_pat_data, pat_section, generate_pat, generate_pmt,
  video_entry, audio_entry, stream_entry, video_stream_type, video_descriptors, audio_stream_type,
  audio_descriptors, registration, pmt_section, little_end,
}

-- CRC-32/MPEG-2 bit by bit, as ISO/IEC 13818-1 has it: the polynomial 0x04c11db7, from the highest bit
-- down. It uses neither the table nor the byte order of the program.
shift_bit : ℕ → ℕ
shift_bit crc = if ltb crc 0x80000000 then crc * 2 else bit_xor (crc * 2 - 0x100000000) 0x04c11db7

shift_byte : ℕ → ℕ
unfolding shift_bit
shift_byte crc =
    shift_bit
      (shift_bit (shift_bit (shift_bit (shift_bit (shift_bit (shift_bit (shift_bit crc)))))))

crc_from : ℕ → List ℕ → ℕ
unfolding shift_byte
crc_from crc [] = crc
crc_from crc (b ∷ bytes) = crc_from (shift_byte (bit_xor crc (b * 0x1000000))) bytes

-- The remainder that a receiver computes over a section with its checksum; 0 is right.
pub remainder : List ℕ → ℕ
unfolding crc_from
remainder section = crc_from 0xffffffff section

-- The bytes of a word the other way round.
abbrev turned : ℕ → ℕ
turned w =
    w % 256 * 0x1000000 + w / 0x100 % 256 * 0x10000 + w / 0x10000 % 256 * 0x100 + w / 0x1000000

-- What the table should have at `i`, and what it has.
pub table_entry : ℕ → ℕ
unfolding shift_byte
table_entry i = turned (shift_byte (i * 0x1000000))

pub entry_read : ℕ → ℕ
entry_read i = or_zero (get_elem? crc32table i)

table_right : (i : ℕ) → i < 256 → entry_read i ≡ table_entry i
unfolding agree_below entry_read table_entry crc32table or_zero shift_byte shift_bit
table_right = agree_below→eq _ _ 256 refl

pub pmt_sent : List ℕ → List ℕ
pmt_sent entries =
    let section = pmt_section entries in section ++ little_end (mpeg_crc32 0xffffffff section)

videos : List (List ℕ)
unfolding stream_entry
videos =
    []
    ∷ stream_entry 0x1b 0x100 []
    ∷ stream_entry 0x24 0x100 []
    ∷ stream_entry 0x06 0x100 (registration 86 112 56 48)
    ∷ stream_entry 0x06 0x100 (registration 86 112 57 48)
    ∷ stream_entry 0x06 0x100 []
    ∷ []

audios : List (List ℕ)
unfolding stream_entry
audios =
    []
    ∷ stream_entry 0x0f 0x101 []
    ∷ stream_entry 0x06 0x101 (registration 79 112 117 115)
    ∷ stream_entry 0x06 0x101 []
    ∷ []

all_right : (List ℕ → Bool) → List (List ℕ) → Bool
all_right p [] = true
all_right p (x ∷ xs) = p x && all_right p xs

all_right_sound :
    (p : List ℕ → Bool) (xs : List (List ℕ)) (i : ℕ) (x : List ℕ)
    → all_right p xs ≡ true
    → get_elem? xs i ≡ some x
    → p x ≡ true
unfolding all_right
all_right_sound p [] i x h e = absurd (ground arith)
all_right_sound p (y ∷ xs) zero x h e = ground arith
all_right_sound p (y ∷ xs) (suc i) x h e = all_right_sound p xs i x (ground arith) e

table : all_right (λ v. all_right (λ a. remainder (pmt_sent (v ++ a)) == 0) audios) videos ≡ true
unfolding all_right remainder crc_from shift_byte shift_bit pmt_sent videos audios mpeg_crc32
    pmt_section little_end crc32table or_zero
table = refl

video_index : Bool → CodecType → ℕ
video_index false codec = 0
video_index true h264 = 1
video_index true h265 = 2
video_index true vp8 = 3
video_index true vp9 = 4
video_index true other = 5

audio_index : Bool → CodecType → ℕ
audio_index false codec = 0
audio_index true aac = 1
audio_index true opus = 2
audio_index true other = 3

video_listed :
    (has : Bool) (codec : CodecType)
    → get_elem? videos (video_index has codec)
      ≡ some (
          if has
          then stream_entry (video_stream_type codec) 0x100 (video_descriptors codec)
          else [])
unfolding videos video_index video_stream_type video_descriptors stream_entry
video_listed false codec = refl
video_listed true h264 = refl
video_listed true h265 = refl
video_listed true vp8 = refl
video_listed true vp9 = refl
video_listed true other = refl

audio_listed :
    (has : Bool) (codec : CodecType)
    → get_elem? audios (audio_index has codec)
      ≡ some (
          if has
          then stream_entry (audio_stream_type codec) 0x101 (audio_descriptors codec)
          else [])
unfolding audios audio_index audio_stream_type audio_descriptors stream_entry
audio_listed false codec = refl
audio_listed true aac = refl
audio_listed true opus = refl
audio_listed true other = refl

-- The section of the PAT as it is sent first.
pub pat_sent : List ℕ
pat_sent =
    pat_section
    ++ write4_bytes (mpeg_crc32 0xffffffff (drop 1 pat_section ++ take 2 (drop 17 new_pat_data)))

pmt_remainder : (m : PsiMuxer) → remainder (pmt_sent (video_entry m ++ audio_entry m)) ≡ 0
unfolding video_entry audio_entry
pmt_remainder m =
    let right =
      all_right_sound (λ a. remainder (pmt_sent (video_entry m ++ a)) == 0) audios
        (audio_index m.has_audio m.audio_codec) (audio_entry m)
        (all_right_sound (λ v. all_right (λ a. remainder (pmt_sent (v ++ a)) == 0) audios) videos
          (video_index m.has_video m.video_codec) (video_entry m) table
          (video_listed m.has_video m.video_codec))
        (audio_listed m.has_audio m.audio_codec) in
    ground arith

pat_differs : (remainder pat_sent == 0) ≡ false
unfolding remainder crc_from shift_byte shift_bit pat_sent mpeg_crc32 crc32table or_zero
    write4_bytes write2_bytes ones
pat_differs = refl

pat_remainder : remainder pat_sent ≢ 0
pat_remainder h = absurd (ground (arith, pat_differs))

-- Against the CRC of ISO/IEC 13818-1, computed bit by bit: all 256 entries of crc32table are those of its
-- polynomial, with their bytes turned. The checksum of the PMT is right whatever streams of whatever codecs
-- the muxer has: behind the five bytes of its header the unit has the section with a checksum that leaves
-- the remainder 0. That of the PAT is not: the unit that a new muxer sends has a section that leaves
-- another remainder.
pub table_checksums :
    (m : PsiMuxer)
    → ((i : ℕ) → i < 256 → entry_read i ≡ table_entry i)
      × ((rest : List ℕ) × (generate_pmt m
            ≡ (0x47 ∷ 0x50 ∷ 1 ∷ 0x10 ∷ 0 ∷ [])
              ++ (pmt_sent (video_entry m ++ audio_entry m) ++ rest)))
      × (remainder (pmt_sent (video_entry m ++ audio_entry m)) ≡ 0)
      × ((rest : List ℕ) × (generate_pat new_pat_data
            ≡ (0x47 ∷ 0x40 ∷ 0 ∷ 0x10 ∷ 0 ∷ []) ++ (pat_sent ++ rest)))
      × (remainder pat_sent ≢ 0)
unfolding generate_pmt generate_pat pmt_sent pat_sent
table_checksums m = (table_right, (_, refl), pmt_remainder m, (_, refl), pat_remainder)
