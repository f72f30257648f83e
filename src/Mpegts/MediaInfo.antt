-- ===== src/Mpegts/MediaInfo.antt =====
-- src/format/mpegts/mpegts_demux.cpp: the kind of a stream, and the packets that its bytes are cut into.
use cpp_streamer.Base.{
  ℕ, ◌+◌, ◌*◌, ◌%◌, Bool, true, false, ◌&&◌, ◌||◌, Option, none, some, List, [], ◌∷◌, ◌++◌, map,
  ltb, leb, ◌==◌, if◌then◌else◌, length,
}
use cpp_streamer.Base.Outcome.{Outcome, done, ◌>>=◌, access}
use cpp_streamer.Flv.{
  AvType, CodecType, MediaPacket, unknown_av, unknown_codec, video, audio, h264, h265, aac, opus,
}
use cpp_streamer.Nalu.{get_nalu_type_pos}
use cpp_streamer.Mpegts.State.{StreamPidInfo, at}

-- GetMediaInfoByStreamtype; what is not known leaves both unknown.
unfoldable pub media_of_type : ℕ → AvType × CodecType
media_of_type t =
    if t == 0x0f
    then (audio, aac)
    else if t == 0x1b
    then (video, h264)
    else if t == 0x24
    then (video, h265)
    else (unknown_av, unknown_codec)

-- The loop over the stream's descriptors, whose text ends at its first zero, in lower case.
to_lower : ℕ → ℕ
to_lower c = if leb 65 c && leb c 90 then c + 32 else c

c_string : List ℕ → List ℕ
c_string [] = []
c_string (c ∷ cs) = elim (c == 0) [ true ↦ [] | false ↦ c ∷ c_string cs ]

same_text : List ℕ → List ℕ → Bool
same_text [] [] = true
same_text (a ∷ s) (b ∷ t) = a == b && same_text s t
same_text s t = false

unfoldable pub names_opus : List (ℕ × List ℕ) → Bool
unfolding to_lower c_string same_text
names_opus [] = false
names_opus ((tag, desc) ∷ infos) =
    same_text (map to_lower (c_string desc)) (111 ∷ 112 ∷ 117 ∷ 115 ∷ []) || names_opus infos

unfoldable pub stream_type_of : ℕ → List StreamPidInfo → Option ℕ
stream_type_of pid [] = none
stream_type_of pid (s ∷ ss) =
    if s.elementary_pid == pid then some s.stream_type else stream_type_of pid ss

unfoldable pub opus_of : ℕ → List StreamPidInfo → AvType × CodecType
unfolding names_opus
opus_of pid [] = (unknown_av, unknown_codec)
opus_of pid (s ∷ ss) =
    if s.elementary_pid == pid && names_opus s.es_info then (audio, opus) else opus_of pid ss

-- GetMediaInfoByPid
unfoldable pub media_info : ℕ → List StreamPidInfo → AvType × CodecType
unfolding stream_type_of opus_of media_of_type
media_info pid ss = elim (stream_type_of pid ss) [
  | none ↦ opus_of pid ss
  | some t ↦
      let (av, codec) = media_of_type t in
      elim av [ unknown_av ↦ opus_of pid ss | known ↦ (known, codec) ]
]

-- The unit of a video packet that is sent on, if it is.
unfoldable pub output_nalu : MediaPacket → List ℕ → Outcome (List MediaPacket)
output_nalu p nalu = if ltb (length nalu) 5 then done [] else (do
  found ← get_nalu_type_pos nalu
  pos ← access found
  head ← at nalu pos
  let type = head % 32
  done (
      if type == 9
      then []
      else record p { is_seq_hdr = type == 7 || type == 8; is_key_frame = type == 5; bytes = nalu }
        ∷ []))

unfoldable pub output_nalus : MediaPacket → List (List ℕ) → Outcome (List MediaPacket)
unfolding output_nalu
output_nalus p [] = done []
output_nalus p (nalu ∷ nalus) = do
  xs ← output_nalu p nalu
  ys ← output_nalus p nalus
  done (xs ++ ys)

-- The frames of Opus, 20 ms apart.
unfoldable pub output_frames : MediaPacket → ℕ → List (List ℕ) → List MediaPacket
output_frames p i [] = []
output_frames p i (f ∷ fs) =
    record p { dts = p.dts + 20 * i; pts = p.dts + 20 * i; bytes = f } ∷ output_frames p (i + 1) fs
