-- ===== src/Mpegts/Pipeline.antt =====
-- src/format/mpegts: tables and packets one after another, from the muxer's functions to the demuxer's output.
use mathlib.Core.Path.{subst}
use cpp_streamer.Base.{
  ℕ, ◌*◌, ◌/◌, ◌^◌, ◌<◌, ◌≡◌, refl, sym, ap, ◌∙◌, true, false, not, ◌&&◌, Option, List, [], ◌∷◌,
  ◌++◌, arith, length, ◌==◌, if◌then◌else◌, inl,
}
use cpp_streamer.Base.Outcome.{done}
use cpp_streamer.Flv.{MediaPacket, audio, aac}
use cpp_streamer.Nalu.Laws.{concat}
use cpp_streamer.Mpegts.Pes.{PesMuxer, pid_of, write_pes}
use cpp_streamer.Mpegts.Psi.{PsiMuxer, write_tables}
use cpp_streamer.Mpegts.State.{MpegtsDemux}
use cpp_streamer.Mpegts.Demux.{decode, on_callback, packets_of, outputs, deliver}
use cpp_streamer.Mpegts.MediaInfo.{media_info}
use cpp_streamer.Mpegts.Units.{Carries}
use cpp_streamer.Mpegts.Tables.{Starts, tuned, decode-write_tables}
use cpp_streamer.Mpegts.Shapes.{media_info-streams, streams}
use cpp_streamer.Mpegts.Times.{both}
use cpp_streamer.Mpegts.First.{Fits, media}
use cpp_streamer.Mpegts.RoundTrip.{arrived, kept_dts, decode-write_pes}

-- A packet of AAC as the demuxer outputs it: both times are the presentation time.
abbrev pub heard : MediaPacket → MediaPacket
heard p = record {
  av_type = audio;
  codec_type = aac;
  is_seq_hdr = false;
  is_key_frame = false;
  dts = p.pts;
  pts = p.pts;
  bytes = p.bytes;
}

-- The demuxer that has output the packet it held.
abbrev pub passed : MediaPacket → MpegtsDemux → MpegtsDemux
passed p d = record (arrived p d) { held = []; sent = d.sent ++ heard p ∷ [] }

module _ (opus_frames : List ℕ → Option (List (List ℕ))) where
  pub on_callback_idle : (d : MpegtsDemux) → d.held ≡ [] → on_callback opus_frames d ≡ done d
  unfolding on_callback deliver
  on_callback_idle d e = ap (λ h. deliver opus_frames h (packets_of opus_frames d) d) e

  packets_of-arrived :
      (m : PsiMuxer) (p : MediaPacket) (d : MpegtsDemux)
      → m.has_audio ≡ true
      → m.audio_codec ≡ aac
      → media p ≡ false
      → packets_of opus_frames (arrived p (tuned m d)) ≡ done (heard p ∷ [])
  unfolding packets_of outputs
  packets_of-arrived m p d has codec kind =
      let presented : kept_dts p / 90 ≡ p.pts =
        ap
          (λ v.
            (if both v (p.dts * 90) (p.pts * 90) && not (p.dts * 90 == 0)
              then p.dts * 90
              else p.pts * 90)
            / 90)
          kind
        ∙ omega arith in
      let same : p.pts * 90 / 90 ≡ p.pts = omega arith in
      ap (λ i. outputs opus_frames (media_info (pid_of i) (streams m)) (arrived p (tuned m d))) kind
      ∙ ap (λ k. outputs opus_frames k (arrived p (tuned m d))) (media_info-streams m has codec)
      ∙ ap (λ t. done (record (heard p) { dts = t; pts = p.pts * 90 / 90 } ∷ [])) presented
      ∙ ap (λ t. done (record (heard p) { pts = t } ∷ [])) same

  deliver_some :
      (held : List ℕ) (ps : List MediaPacket) (d : MpegtsDemux)
      → 0 < length held
      → deliver opus_frames held (done ps) d ≡ done (record d { held = []; sent = d.sent ++ ps })
  unfolding deliver
  deliver_some [] ps d h = absurd (omega arith)
  deliver_some (c ∷ cs) ps d h = refl

  on_callback-arrived :
      (m : PsiMuxer) (p : MediaPacket) (d : MpegtsDemux)
      → m.has_audio ≡ true
      → m.audio_codec ≡ aac
      → media p ≡ false
      → 0 < length p.bytes
      → on_callback opus_frames (arrived p (tuned m d)) ≡ done (passed p (tuned m d))
  unfolding on_callback
  on_callback-arrived m p d has codec kind pos =
      ap (λ ps. deliver opus_frames p.bytes ps (arrived p (tuned m d)))
        (packets_of-arrived m p d has codec kind)
      ∙ deliver_some p.bytes (heard p ∷ []) (arrived p (tuned m d)) pos

  -- Tables, then a packet of AAC, then any packet of a stream in the tables, each written and decoded
  -- after the one before, with the conditions of the round trip on both, at a demuxer that holds nothing.
  -- Decode returns 0 each of the three times. After the tables and after the first packet nothing has been
  -- output; when the second packet comes, the first is output, once, with its own bytes and presentation
  -- time, and the second is held.
  pub decode_stream :
      (m : PsiMuxer) (p q : MediaPacket) (w : PesMuxer) (d : MpegtsDemux)
      → Starts m.pat_data
      → m.has_audio ≡ true
      → m.audio_codec ≡ aac
      → d.held ≡ []
      → media p ≡ false
      → 0 < length p.bytes
      → 0 < length q.bytes
      → Fits q
      → p.dts * 90 < 2 ^ 31
      → p.pts * 90 < 2 ^ 31
      → q.dts * 90 < 2 ^ 31
      → q.pts * 90 < 2 ^ 31
      → Carries (pid_of (media q)) (tuned m d)
      → (w1 w2 : PesMuxer) × (us vs : List (List ℕ)) × (write_pes p w ≡ done (w1, us))
        × (write_pes q w1 ≡ done (w2, vs))
        × (d1 d2 d3 : MpegtsDemux) × (decode opus_frames (concat (write_tables m).1) d
            ≡ done (true, d1))
        × (decode opus_frames (concat us) d1 ≡ done (true, d2))
        × (decode opus_frames (concat vs) d2 ≡ done (true, d3))
        × (d1.sent ≡ d.sent)
        × (d2.sent ≡ d.sent)
        × (d3.sent ≡ d.sent ++ heard p ∷ [])
        × (d3 ≡ arrived q (passed p (tuned m d)))
  decode_stream m p q w d starts has codec idle kind pos pos' fits hd hp hd' hp' c =
      let (tables, v, a, s) = decode-write_tables opus_frames m d starts in
      let first : Carries (pid_of (media p)) (tuned m d) =
        subst (λ b. Carries (pid_of b) (tuned m d)) (sym kind) (a has) in
      let (w1, us, e, sizes, read) =
        decode-write_pes opus_frames p w (tuned m d) (tuned m d) pos
          (inl (ap (λ b. b && p.is_key_frame) kind)) hd hp first
          (on_callback_idle (tuned m d) idle) in
      let second : Carries (pid_of (media q)) (arrived p (tuned m d)) = record {
        not_pmt = c.not_pmt;
        once = c.once;
      } in
      let (w2, vs, e', sizes', read') =
        decode-write_pes opus_frames q w1 (arrived p (tuned m d)) (passed p (tuned m d)) pos' fits
          hd' hp' second (on_callback-arrived m p d has codec kind pos) in
      (
        w1,
        w2,
        us,
        vs,
        e,
        e',
        tuned m d,
        arrived p (tuned m d),
        arrived q (passed p (tuned m d)),
        tables,
        read,
        read',
        refl,
        refl,
        refl,
        refl,
      )
