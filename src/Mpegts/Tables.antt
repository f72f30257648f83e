-- ===== src/Mpegts/Tables.antt =====
-- src/format/mpegts: the tables that the muxer writes, read by the demuxer.
use cpp_streamer.Base.{
  ℕ, ◌-◌, ◌≡◌, refl, ap, ◌∙◌, true, Option, List, [], ◌∷◌, ◌++◌, length, take, drop,
}
use cpp_streamer.Base.Outcome.{done}
use cpp_streamer.Utils.ByteStream.{write2_bytes, write4_bytes}
use cpp_streamer.Nalu.Laws.{concat}
use cpp_streamer.Mpegts.Pes.{ones}
use cpp_streamer.Mpegts.Psi.{
  PsiMuxer, mpeg_crc32, pat_section, generate_pat, generate_pmt, write_tables, video_entry,
  audio_entry, stream_entry, pmt_section, little_end,
}
use cpp_streamer.Mpegts.Units.{Carries}
use cpp_streamer.Mpegts.State.{MpegtsDemux, program}
use cpp_streamer.Mpegts.Demux.{decode}
use cpp_streamer.Mpegts.PsiReader.{is_pmt}
use cpp_streamer.Mpegts.Shapes.{
  Shape, absent, plain, registered, streams, entry_bytes, entry_read, video_shape, audio_shape,
  video_lem, audio_lem, present, times_lem, present-video_shape, present-audio_shape,
}

-- The units, for any checksums.
abbrev pat_unit : ℕ → List ℕ
pat_unit crc =
    let front = (0x47 ∷ 0x40 ∷ 0 ∷ 0x10 ∷ 0 ∷ []) ++ (pat_section ++ write4_bytes crc) in
    front ++ ones (188 - length front)

abbrev pmt_unit : ℕ → List ℕ → List ℕ
pmt_unit crc entries =
    let front = (0x47 ∷ 0x50 ∷ 1 ∷ 0x10 ∷ 0 ∷ []) ++ (pmt_section entries ++ little_end crc) in
    front ++ ones (188 - length front)

module _ (opus_frames : List ℕ → Option (List (List ℕ))) where
  decode_shapes :
      (x y : ℕ) (v a : Shape) (d : MpegtsDemux)
      → decode opus_frames
          (pat_unit x ++ (pmt_unit y (entry_bytes 0x100 v ++ entry_bytes 0x101 a) ++ []))
          d
        ≡ done (
          true,
          record d {
            pid_vec = program 1 0x1001 ∷ [];
            stream_pid_vec = entry_read 0x100 v ++ entry_read 0x101 a;
          },
        )
  unfolding decode entry_bytes entry_read stream_entry pmt_section little_end write4_bytes
      write2_bytes ones
  decode_shapes x y absent absent d = refl
  decode_shapes x y absent (plain u) d = refl
  decode_shapes x y absent (registered u e f g h) d = refl
  decode_shapes x y (plain t) absent d = refl
  decode_shapes x y (plain t) (plain u) d = refl
  decode_shapes x y (plain t) (registered u e f g h) d = refl
  decode_shapes x y (registered t i j k l) absent d = refl
  decode_shapes x y (registered t i j k l) (plain u) d = refl
  decode_shapes x y (registered t i j k l) (registered u e f g h) d = refl

-- The start of pat_data_ that the constructor writes and GeneratePat keeps.
abbrev pub Starts : List ℕ → Type 0
Starts pat_data = take 5 pat_data ≡ 0x47 ∷ 0x40 ∷ 0 ∷ 0x10 ∷ 0 ∷ []

abbrev entries : PsiMuxer → List ℕ
entries m =
    entry_bytes 0x100 (video_shape m.has_video m.video_codec)
    ++ entry_bytes 0x101 (audio_shape m.has_audio m.audio_codec)

generate_pat_lem :
    (pat_data : List ℕ)
    → Starts pat_data
    → generate_pat pat_data
      ≡ pat_unit (mpeg_crc32 0xffffffff (drop 1 pat_section ++ take 2 (drop 17 pat_data)))
unfolding generate_pat
generate_pat_lem pat_data h = rw (generate_pat, h) refl

generate_pmt_lem :
    (m : PsiMuxer)
    → generate_pmt m ≡ pmt_unit (mpeg_crc32 0xffffffff (pmt_section (entries m))) (entries m)
unfolding generate_pmt video_entry audio_entry
generate_pmt_lem m =
    ap (λ e. pmt_unit (mpeg_crc32 0xffffffff (pmt_section e)) e)
      (ap (λ v. v ++ audio_entry m) (video_lem m.has_video m.video_codec)
        ∙ ap (λ a. entry_bytes 0x100 (video_shape m.has_video m.video_codec) ++ a)
            (audio_lem m.has_audio m.audio_codec))

-- What the demuxer has once it has read the tables.
abbrev pub tuned : PsiMuxer → MpegtsDemux → MpegtsDemux
tuned m d = record d { pid_vec = program 1 0x1001 ∷ []; stream_pid_vec = streams m }

-- The units of WritePat and WritePmt, in this order and for any codecs, are read by Decode with code 0 and
-- whatever the demuxer's tables were: it then has the program 1 with its number 0x1001, and the streams
-- with their types and descriptors. If the muxer has video, the tables have the stream 0x100 once, if audio,
-- 0x101. The unit of the PAT keeps its first five bytes, so that this holds the next time too.
pub decode-write_tables :
    (opus_frames : List ℕ → Option (List (List ℕ))) (m : PsiMuxer) (d : MpegtsDemux)
    → Starts m.pat_data
    → (decode opus_frames (concat (write_tables m).1) d ≡ done (true, tuned m d))
      × (m.has_video ≡ true → Carries 0x100 (tuned m d))
      × (m.has_audio ≡ true → Carries 0x101 (tuned m d))
      × Starts (write_tables m).0.pat_data
unfolding write_tables streams is_pmt
decode-write_tables opus_frames m d h =
    let v = video_shape m.has_video m.video_codec in
    let a = audio_shape m.has_audio m.audio_codec in
    let (count_v, count_a) = times_lem v a in
    (
      rw (generate_pat_lem m.pat_data h, generate_pmt_lem m)
          (decode_shapes opus_frames
            (mpeg_crc32 0xffffffff (drop 1 pat_section ++ take 2 (drop 17 m.pat_data)))
            (mpeg_crc32 0xffffffff (pmt_section (entries m))) v a d),
      λ has. record {
        not_pmt = refl;
        once =
            count_v
            ∙ (ap (λ b. present (video_shape b m.video_codec)) has
                ∙ present-video_shape m.video_codec);
      },
      λ has. record {
        not_pmt = refl;
        once =
            count_a
            ∙ (ap (λ b. present (audio_shape b m.audio_codec)) has
                ∙ present-audio_shape m.audio_codec);
      },
      rw (generate_pat_lem m.pat_data h) refl,
    )
