-- ===== src/AudioHeader.antt =====
-- src/format/audio_header.cpp: the headers in front of audio. Data is the list of its bytes; a read behind
-- it is a fault, and an assertion that fails throws. An output that a branch leaves as it was is an argument.
pub mod Laws
mod Tests
use cpp_streamer.Base.{
  ℕ, ◌+◌, ◌-◌, ◌*◌, ◌/◌, ◌%◌, ◌^◌, bit_or, Bool, ◌&&◌, ◌||◌, Option, none, some, List, [], ◌∷◌,
  ◌++◌, ltb, ◌==◌, if◌then◌else◌, length, get_elem?, drop,
}
use cpp_streamer.Base.Outcome.{Outcome, done, throws, ◌>>=◌, access}
use cpp_streamer.Utils.ByteStream.{
  byte_of, read2_bytes, read3_bytes, write2_bytes_le, write4_bytes_le,
}
use cpp_streamer.Flv.{CodecType, aac, mp3, opus}

pub record AudioInfo : Type 0 where
  pub audio_type : ℕ
  pub sample_rate : ℕ
  pub channel : ℕ

-- The array has 16 places for 13 rates.
unfoldable pub mpeg4audio_sample_rates : List ℕ
mpeg4audio_sample_rates =
    96000 ∷ 88200 ∷ 64000 ∷ 48000 ∷ 44100 ∷ 32000 ∷ 24000 ∷ 22050 ∷ 16000 ∷ 12000 ∷ 11025 ∷ 8000
    ∷ 7350 ∷ 0 ∷ 0 ∷ 0 ∷ []

abbrev flv_audio_rates : List ℕ
flv_audio_rates = 5512 ∷ 11025 ∷ 22050 ∷ 44100 ∷ []

-- GetAudioInfoByFlvHeader, with the size of a sample behind its rate.
flv_codec : ℕ → Option CodecType
flv_codec id =
    if id == 10 then some aac else if id == 2 then some mp3 else if id == 9 then some opus else none

unfoldable pub get_audio_info_by_flv_header : ℕ → Outcome (Option (CodecType × ℕ × ℕ × ℕ))
unfolding flv_codec
get_audio_info_by_flv_header flag = elim (flv_codec (flag / 16 % 16)) [
  | none ↦ done none
  | some codec ↦ (do
    rate ← access (get_elem? flv_audio_rates (flag / 4 % 4))
    done (some (codec, rate, flag / 2 % 2, if flag % 2 == 1 then 2 else 1)))
]

-- GetSamplerateIndex: the first place of the rate from `index` on.
unfoldable pub rate_index : ℕ → ℕ → List ℕ → ℕ
rate_index rate index [] = 4
rate_index rate index (r ∷ rs) =
    let later = rate_index rate (index + 1) rs in if rate == r then index else later

unfoldable pub get_samplerate_index : ℕ → ℕ
unfolding rate_index
get_samplerate_index rate = rate_index rate 0 mpeg4audio_sample_rates

unfoldable pub get_sample_rate_by_index : ℕ → Option ℕ
get_sample_rate_by_index index = get_elem? mpeg4audio_sample_rates index

-- GetAdtsTypeByAscType: main, low complexity with both of its extensions, scalable, and the rest.
unfoldable pub get_adts_type_by_asc_type : ℕ → ℕ
get_adts_type_by_asc_type t =
    if t == 1 then 1 else if t == 5 || t == 29 || t == 2 then 2 else if t == 3 then 3 else 4

unfoldable pub get_asc_type_by_adts_type : ℕ → ℕ
get_asc_type_by_adts_type t = if t == 1 then 1 else if t == 2 then 2 else if t == 3 then 3 else 2

-- The first branch of GetAudioInfoByAsc; `p` is the second byte.
unfoldable pub escaped_info : ℕ → List ℕ → Outcome AudioInfo
unfolding read3_bytes
escaped_info field p =
    let audio_type = field / 32 % 64 in
    let index = field / 2 % 16 in
    if index == 15
    then (if ltb 3 (length p - 1)
        then (do
          wide ← access (read3_bytes p)
          b ← access (get_elem? p 3)
          let field = wide % 2 ^ 16
          done (record {
            audio_type = audio_type;
            sample_rate = field / 2;
            channel = field % 2 * 8 + b / 32 % 8;
          }))
        else throws)
    else do
      b ← access (get_elem? p 0)
      rate ← access (get_elem? mpeg4audio_sample_rates index)
      done (record {
        audio_type = audio_type;
        sample_rate = rate;
        channel = field % 2 * 8 + b / 32 % 8;
      })

-- The other branch.
unfoldable pub plain_info : ℕ → ℕ → List ℕ → Outcome AudioInfo
unfolding read2_bytes
plain_info channel field p =
    let audio_type = field / 2048 % 32 in
    let index = field / 128 % 16 in
    if index == 15
    then (do
      next ← access (read2_bytes p)
      done (record {
        audio_type = audio_type;
        sample_rate = field % 128 * 2 ^ 17 + next / 2 % 128;
        channel = channel;
      }))
    else do
      rate ← access (get_elem? mpeg4audio_sample_rates index)
      done (record { audio_type = audio_type; sample_rate = rate; channel = field / 8 % 16 })

unfoldable pub get_audio_info_by_asc : ℕ → List ℕ → Outcome AudioInfo
unfolding escaped_info plain_info read2_bytes
get_audio_info_by_asc channel asc = if ltb (length asc) 2 then throws else (do
  field ← access (read2_bytes asc)
  if field / 2048 % 32 == 31
      then escaped_info field (drop 1 asc)
      else plain_info channel field (drop 1 asc))

-- GetAudioInfo2ByAsc
unfoldable pub get_audio_info2_by_asc : List ℕ → Outcome (Option AudioInfo)
get_audio_info2_by_asc asc = do
  a ← access (get_elem? asc 0)
  let audio_type = a / 8 % 32
  if audio_type == 31 then done none else (do
    b ← access (get_elem? asc 1)
    let index = a % 8 * 2 + b / 128 % 2
    rate ← access (get_elem? mpeg4audio_sample_rates index)
    let info : AudioInfo = record {
      audio_type = audio_type;
      sample_rate = rate;
      channel = b / 8 % 16;
    }
    if audio_type == 5 || audio_type == 29
        then (do
          c ← access (get_elem? asc 2)
          rate ← access (get_elem? mpeg4audio_sample_rates (b * 2 % 16 + c / 128))
          done (some (record info { sample_rate = rate })))
        else done (some info))

-- MakeAdts for MPEG-2, with `object_type` 1 at least.
unfoldable pub make_adts : ℕ → ℕ → ℕ → ℕ → List ℕ
make_adts object_type sample_rate channel size =
    let index = get_samplerate_index sample_rate in
    let full = (size + 7) % 0x2000 in
    0xff
    ∷ 0xf9
    ∷ bit_or (bit_or ((object_type - 1) * 64 % 256) (index * 4 % 256)) (channel / 4 % 256)
    ∷ bit_or (channel * 64 % 256) (full * 8 / 2 ^ 14)
    ∷ full * 32 / 256 % 256
    ∷ bit_or (full * 32 % 256) 31
    ∷ 0xfc
    ∷ []

-- MakeOpusHeader
unfoldable pub make_opus_header : ℕ → ℕ → List ℕ
unfolding write2_bytes_le write4_bytes_le
make_opus_header sample_rate channel =
    (79 ∷ 112 ∷ 117 ∷ 115 ∷ 72 ∷ 101 ∷ 97 ∷ 100 ∷ 1 ∷ channel % 256 ∷ [])
    ++ (write2_bytes_le 0 ++ (write4_bytes_le sample_rate ++ (write2_bytes_le 0 ++ (0 ∷ []))))
