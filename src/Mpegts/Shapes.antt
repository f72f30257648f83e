-- ===== src/Mpegts/Shapes.antt =====
-- src/format/mpegts: the streams that the tables describe, as the muxer writes and the demuxer reads them.
use cpp_streamer.Base.{ℕ, ◌≡◌, refl, ap, ◌∙◌, Bool, true, false, List, [], ◌∷◌, ◌++◌, if◌then◌else◌}
use cpp_streamer.Flv.{CodecType, h264, h265, vp8, vp9, aac, opus, audio}
use cpp_streamer.Mpegts.Psi.{
  PsiMuxer, stream_entry, video_stream_type, video_descriptors, audio_stream_type,
  audio_descriptors, registration,
}
use cpp_streamer.Mpegts.Units.{times}
use cpp_streamer.Mpegts.State.{StreamPidInfo}
use cpp_streamer.Mpegts.MediaInfo.{media_info}

-- An entry of the table of streams: a stream type and no descriptors, or the two of `registration`.
pub data Shape : Type 0 where
  absent : Shape
  plain : ℕ → Shape
  registered : ℕ → ℕ → ℕ → ℕ → ℕ → Shape

unfoldable pub entry_bytes : ℕ → Shape → List ℕ
entry_bytes pid absent = []
entry_bytes pid (plain type) = stream_entry type pid []
entry_bytes pid (registered type a b c d) = stream_entry type pid (registration a b c d)

unfoldable pub entry_read : ℕ → Shape → List StreamPidInfo
entry_read pid absent = []
entry_read pid (plain type) = record { stream_type = type; elementary_pid = pid; es_info = [] } ∷ []
entry_read pid (registered type a b c d) =
    record {
      stream_type = type;
      elementary_pid = pid;
      es_info = (0x05, a ∷ b ∷ c ∷ d ∷ []) ∷ (0x7f, 0x80 ∷ 2 ∷ []) ∷ [];
    }
    ∷ []

-- How the muxer describes its streams.
unfoldable pub video_shape : Bool → CodecType → Shape
video_shape false codec = absent
video_shape true h264 = plain 0x1b
video_shape true h265 = plain 0x24
video_shape true vp8 = registered 0x06 86 112 56 48
video_shape true vp9 = registered 0x06 86 112 57 48
video_shape true other = plain 0x06

unfoldable pub audio_shape : Bool → CodecType → Shape
audio_shape false codec = absent
audio_shape true aac = plain 0x0f
audio_shape true opus = registered 0x06 79 112 117 115
audio_shape true other = plain 0x06

pub video_lem :
    (has : Bool) (codec : CodecType)
    → (if has then stream_entry (video_stream_type codec) 0x100 (video_descriptors codec) else [])
      ≡ entry_bytes 0x100 (video_shape has codec)
unfolding video_stream_type video_descriptors video_shape entry_bytes
video_lem false codec = refl
video_lem true h264 = refl
video_lem true h265 = refl
video_lem true vp8 = refl
video_lem true vp9 = refl
video_lem true other = refl

pub audio_lem :
    (has : Bool) (codec : CodecType)
    → (if has then stream_entry (audio_stream_type codec) 0x101 (audio_descriptors codec) else [])
      ≡ entry_bytes 0x101 (audio_shape has codec)
unfolding audio_stream_type audio_descriptors audio_shape entry_bytes
audio_lem false codec = refl
audio_lem true aac = refl
audio_lem true opus = refl
audio_lem true other = refl

-- The streams that the tables name, in order.
unfoldable pub streams : PsiMuxer → List StreamPidInfo
unfolding entry_read video_shape audio_shape
streams m =
    entry_read 0x100 (video_shape m.has_video m.video_codec)
    ++ entry_read 0x101 (audio_shape m.has_audio m.audio_codec)

unfoldable pub present : Shape → ℕ
present absent = 0
present (plain t) = 1
present (registered t i j k l) = 1

-- Each stream stands in them once.
pub times_lem :
    (v a : Shape)
    → (times 0x100 (entry_read 0x100 v ++ entry_read 0x101 a) ≡ present v)
      × (times 0x101 (entry_read 0x100 v ++ entry_read 0x101 a) ≡ present a)
unfolding times entry_read present
times_lem absent absent = (refl, refl)
times_lem absent (plain u) = (refl, refl)
times_lem absent (registered u e f g h) = (refl, refl)
times_lem (plain t) absent = (refl, refl)
times_lem (plain t) (plain u) = (refl, refl)
times_lem (plain t) (registered u e f g h) = (refl, refl)
times_lem (registered t i j k l) absent = (refl, refl)
times_lem (registered t i j k l) (plain u) = (refl, refl)
times_lem (registered t i j k l) (registered u e f g h) = (refl, refl)

pub present-video_shape : (codec : CodecType) → present (video_shape true codec) ≡ 1
unfolding present video_shape
present-video_shape h264 = refl
present-video_shape h265 = refl
present-video_shape vp8 = refl
present-video_shape vp9 = refl
present-video_shape other = refl

pub present-audio_shape : (codec : CodecType) → present (audio_shape true codec) ≡ 1
unfolding present audio_shape
present-audio_shape aac = refl
present-audio_shape opus = refl
present-audio_shape other = refl

media_info-shape :
    (v : Shape)
    → media_info 0x101 (entry_read 0x100 v ++ entry_read 0x101 (audio_shape true aac))
      ≡ (audio, aac)
unfolding media_info entry_read audio_shape
media_info-shape absent = refl
media_info-shape (plain t) = refl
media_info-shape (registered t i j k l) = refl

-- The stream of AAC is known as such.
pub media_info-streams :
    (m : PsiMuxer)
    → m.has_audio ≡ true
    → m.audio_codec ≡ aac
    → media_info 0x101 (streams m) ≡ (audio, aac)
unfolding streams
media_info-streams m has codec =
    ap
      (λ b. media_info 0x101 (
        entry_read 0x100 (video_shape m.has_video m.video_codec)
        ++ entry_read 0x101 (audio_shape b m.audio_codec)))
      has
    ∙ ap
        (λ c. media_info 0x101 (
          entry_read 0x100 (video_shape m.has_video m.video_codec)
          ++ entry_read 0x101 (audio_shape true c)))
        codec
    ∙ media_info-shape (video_shape m.has_video m.video_codec)
