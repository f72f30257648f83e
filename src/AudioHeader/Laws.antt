-- ===== src/AudioHeader/Laws.antt =====
-- src/format/audio_header.cpp: the header of a frame of AAC against a reader of it, and the two readers of a
-- codec configuration.
use cpp_streamer.Base.{
  ℕ, zero, suc, ◌+◌, ◌-◌, ◌*◌, ◌/◌, ◌%◌, ◌^◌, ◌<◌, ◌≤◌, bit_or, ◌≡◌, refl, sym, ◌≢◌, false, ◌||◌,
  ◌&&◌, Option, none, some, List, [], ◌∷◌, ◌++◌, arith, ltb, ◌==◌, if◌then◌else◌, length, get_elem?,
  IsByte,
}
use cpp_streamer.Base.Bits.{agree_below, agree_below→eq}
use cpp_streamer.Base.Outcome.{done}
use cpp_streamer.AudioHeader.{
  AudioInfo, get_samplerate_index, get_sample_rate_by_index, rate_index, mpeg4audio_sample_rates,
  make_adts, plain_info, get_audio_info_by_asc, get_audio_info2_by_asc,
}

-- The fields of a header of seven bytes: object type, index of the rate, channels, length of the frame.
pub record AdtsFields : Type 0 where
  pub object_type : ℕ
  pub index : ℕ
  pub channels : ℕ
  pub frame_length : ℕ

unfoldable pub adts_fields : List ℕ → Option AdtsFields
adts_fields (a ∷ b ∷ c ∷ d ∷ e ∷ f ∷ g ∷ rest) =
    if a == 0xff && b / 16 == 15
    then some (record {
      object_type = c / 64 + 1;
      index = c / 4 % 16;
      channels = c % 2 * 4 + d / 64;
      frame_length = d % 4 * 2048 + e * 8 + f / 32;
    })
    else none
adts_fields bytes = none

low_byte :
    (n : ℕ)
    → n < 128
    → bit_or (bit_or (n / 32 * 64 % 256) (n / 2 % 16 * 4 % 256)) (n % 2)
      ≡ n / 32 * 64 + n / 2 % 16 * 4 + n % 2
unfolding agree_below
low_byte = agree_below→eq _ _ 128 refl

channel_byte : (n : ℕ) → n < 32 → bit_or (n / 4 * 64 % 256) (n % 4) ≡ n / 4 % 4 * 64 + n % 4
unfolding agree_below
channel_byte = agree_below→eq _ _ 32 refl

length_byte : (n : ℕ) → n < 8 → bit_or (n * 32) 31 ≡ n * 32 + 31
unfolding agree_below
length_byte = agree_below→eq _ _ 8 refl

rate_index-lt : (rate k : ℕ) (rs : List ℕ) → k + length rs ≤ 16 → 4 < 16 → rate_index rate k rs < 16
unfolding rate_index
rate_index-lt rate k [] h f = f
rate_index-lt rate k (r ∷ rs) h f = ground (arith, rate_index-lt rate (k + 1) rs (omega arith) f)

samplerate_index-lt : (rate : ℕ) → get_samplerate_index rate < 16
unfolding get_samplerate_index mpeg4audio_sample_rates
samplerate_index-lt rate = rate_index-lt rate 0 mpeg4audio_sample_rates (omega arith) (omega arith)

third_byte_of :
    (n t i c : ℕ)
    → n < 128
    → n / 32 ≡ t
    → n / 2 % 16 ≡ i
    → n % 2 ≡ c
    → bit_or (bit_or (t * 64 % 256) (i * 4 % 256)) c ≡ t * 64 + i * 4 + c
third_byte_of n t i c h a b d = rw (sym a, sym b, sym d) (low_byte n h)

third_byte :
    (t i c : ℕ)
    → t < 4
    → i < 16
    → c < 2
    → bit_or (bit_or (t * 64 % 256) (i * 4 % 256)) (c % 256) ≡ t * 64 + i * 4 + c
third_byte t i c ht hi hc =
    let e : c % 256 ≡ c = omega arith in
    rw e (
      third_byte_of (t * 32 + i * 2 + c) t i c (omega arith) (omega arith) (omega arith)
        (omega arith))

fourth_byte_of :
    (n c k : ℕ) → n < 32 → n / 4 ≡ c → n % 4 ≡ k → bit_or (c * 64 % 256) k ≡ c % 4 * 64 + k
fourth_byte_of n c k h a b = rw (sym a, sym b) (channel_byte n h)

fourth_byte :
    (c full : ℕ)
    → c < 8
    → full < 8192
    → bit_or (c * 64 % 256) (full * 8 / 2 ^ 14) ≡ c % 4 * 64 + full / 2048
fourth_byte c full hc h =
    let e : full * 8 / 2 ^ 14 ≡ full / 2048 = omega arith in
    rw e (
      fourth_byte_of (c * 4 + full / 2048) c (full / 2048) (omega arith) (omega arith)
        (omega arith))

sixth_byte : (full : ℕ) → bit_or (full * 32 % 256) 31 ≡ full % 8 * 32 + 31
sixth_byte full =
    let e : full * 32 % 256 ≡ full % 8 * 32 = omega arith in
    rw e (length_byte (full % 8) (omega arith))

-- MakeAdts for an object type from 1 to 4, as GetAdtsTypeByAscType gives it, and fewer than 8 channels: it
-- writes seven bytes, from which, whatever comes behind, the object type, the index of the rate, the
-- channels, and the length of the frame with its header modulo 2^13 are read.
pub adts_fields-make_adts :
    (object_type rate channel size : ℕ) (xs : List ℕ)
    → 1 ≤ object_type
    → object_type ≤ 4
    → channel < 8
    → (adts_fields (make_adts object_type rate channel size ++ xs)
        ≡ some (record {
          object_type = object_type;
          index = get_samplerate_index rate;
          channels = channel;
          frame_length = (size + 7) % 2 ^ 13;
        }))
      × (length (make_adts object_type rate channel size) ≡ 7)
unfolding make_adts adts_fields
adts_fields-make_adts t rate c size xs low high hc =
    let i = get_samplerate_index rate in
    let hi : get_samplerate_index rate < 16 = samplerate_index-lt rate in
    let full = (size + 7) % 8192 in
    let third = (t - 1) * 64 + i * 4 + c / 4 in
    let fourth = c % 4 * 64 + full / 2048 in
    let a : third / 64 + 1 ≡ t = omega arith in
    let b : third / 4 % 16 ≡ i = omega arith in
    let d : third % 2 * 4 + fourth / 64 ≡ c = omega arith in
    let e : fourth % 4 * 2048 + full * 32 / 256 % 256 * 8 + (full % 8 * 32 + 31) / 32 ≡ full =
      omega arith in
    rw
      (
        third_byte (t - 1) i (c / 4) (omega arith) hi (omega arith),
        fourth_byte c full hc (omega arith),
        sixth_byte full,
        a,
        b,
        d,
        e,
      )
      (refl, refl)

entry_found : (xs : List ℕ) (i : ℕ) → i < length xs → (x : ℕ) × (get_elem? xs i ≡ some x)
entry_found [] i h = absurd (omega arith)
entry_found (x ∷ xs) zero h = (x, refl)
entry_found (x ∷ xs) (suc i) h = entry_found xs i (omega arith)

rate_found : (i : ℕ) → i < 16 → (rate : ℕ) × (get_elem? mpeg4audio_sample_rates i ≡ some rate)
unfolding mpeg4audio_sample_rates
rate_found i h = entry_found mpeg4audio_sample_rates i h

abbrev pub configuration : ℕ → ℕ → ℕ → AudioInfo
configuration a b rate = record { audio_type = a / 8; sample_rate = rate; channel = b / 8 % 16 }

-- The two readers of a configuration whose first two bytes have an object type other than 5, 29 and 31 and
-- not the index 15: both return, read nothing behind these bytes, and find the same type, rate and channels,
-- from the first five bits, the next four and the next four.
pub audio_info_same :
    (channel a b : ℕ) (rest : List ℕ)
    → IsByte a
    → IsByte b
    → a / 8 ≢ 5
    → a / 8 ≢ 29
    → a / 8 < 31
    → a % 8 * 2 + b / 128 < 15
    → (rate : ℕ) × (get_sample_rate_by_index (a % 8 * 2 + b / 128) ≡ some rate)
      × (get_audio_info_by_asc channel (a ∷ b ∷ rest) ≡ done (configuration a b rate))
      × (get_audio_info2_by_asc (a ∷ b ∷ rest) ≡ done (some (configuration a b rate)))
unfolding get_audio_info_by_asc get_audio_info2_by_asc get_sample_rate_by_index plain_info
audio_info_same channel a b rest ha hb n5 n29 plain h =
    let (rate, at) = rate_found (a % 8 * 2 + b / 128) (omega arith) in
    let long : ltb (length (a ∷ b ∷ rest)) 2 ≡ false = ground arith in
    let type : (a * 256 + b) / 2048 % 32 ≡ a / 8 = omega arith in
    let type2 : a / 8 % 32 ≡ a / 8 = omega arith in
    let small : (a / 8 == 31) ≡ false = ground arith in
    let other : (a / 8 == 5 || a / 8 == 29) ≡ false = ground arith in
    let place : (a * 256 + b) / 128 % 16 ≡ a % 8 * 2 + b / 128 = omega arith in
    let place2 : a % 8 * 2 + b / 128 % 2 ≡ a % 8 * 2 + b / 128 = omega arith in
    let known : (a % 8 * 2 + b / 128 == 15) ≡ false = ground arith in
    let channels : (a * 256 + b) / 8 % 16 ≡ b / 8 % 16 = omega arith in
    (
      rate,
      at,
      rw (get_audio_info_by_asc, long, type, small, plain_info, place, known, at, channels) refl,
      rw (get_audio_info2_by_asc, type2, small, place2, at, other) refl,
    )
