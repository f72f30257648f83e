-- ===== src/Mpegts/Callback.antt =====
-- src/format/mpegts/mpegts_demux.cpp: what a new packet does to the demuxer.
use cpp_streamer.Base.{◌^◌}
use cpp_streamer.Base.{
  ℕ, ◌+◌, ◌-◌, ◌<◌, ◌≡◌, refl, sym, ap, ◌∙◌, Bool, true, false, Option, List, [], ◌∷◌, ◌++◌,
  append_assoc, arith, ltb, leb, ◌==◌, if◌then◌else◌, length, drop, length-append, take-append,
  drop-append,
}
use cpp_streamer.Base.Outcome.{Outcome, done, throws, fault}
use cpp_streamer.Flv.{MediaPacket}
use cpp_streamer.Mpegts.Pes.{pes_header}
use cpp_streamer.Mpegts.State.{MpegtsDemux, insert_into_databuf}
use cpp_streamer.Mpegts.Demux.{on_callback, deliver, packets_of, start_packet}
use cpp_streamer.Mpegts.Times.{
  both, header_len, widened, reduced, pes_header_small, length-pes_header,
}

-- What is kept and what is emptied.
pub record Flushed (d d0 : MpegtsDemux) : Type 0 where
  pub empty : d0.held ≡ []
  pub programs : d0.pid_vec ≡ d.pid_vec
  pub streams : d0.stream_pid_vec ≡ d.stream_pid_vec

module _ (opus_frames : List ℕ → Option (List (List ℕ))) where
  deliver-Flushed :
      (held : List ℕ) (packets : Outcome (List MediaPacket)) (d d0 : MpegtsDemux)
      → d.held ≡ held
      → deliver opus_frames held packets d ≡ done d0
      → Flushed d d0
  unfolding deliver
  deliver-Flushed [] packets d d0 h e = ground arith
  deliver-Flushed (c ∷ cs) (done ps) d d0 h e = ground arith
  deliver-Flushed (c ∷ cs) throws d d0 h e = absurd (ground arith)
  deliver-Flushed (c ∷ cs) fault d d0 h e = absurd (ground arith)

  pub on_callback-Flushed :
      (d d0 : MpegtsDemux) → on_callback opus_frames d ≡ done d0 → Flushed d d0
  unfolding on_callback
  on_callback-Flushed d d0 e = deliver-Flushed d.held (packets_of opus_frames d) d d0 refl e

  -- The state behind the first unit.
  abbrev pub started : Bool → ℕ → ℕ → ℕ → List ℕ → MpegtsDemux → MpegtsDemux
  started v pid dts pts more d0 =
      let read_pts = widened (reduced pts) in
      let read_dts = if both v dts pts then widened (reduced dts) else 0 in
      record d0 {
        last_pts = read_pts;
        last_dts = if read_dts == 0 then read_pts else read_dts;
        held = d0.held ++ more;
        last_pid = pid;
      }

  pub start_packet_lem :
      (n : ℕ) (v : Bool) (dts pts pid npos : ℕ) (front more behind : List ℕ) (d d0 : MpegtsDemux)
      → on_callback opus_frames d ≡ done d0
      → length front ≡ npos
      → 0 < length more
      → npos + header_len v dts pts + length more ≡ 188
      → dts < 2 ^ 31
      → pts < 2 ^ 31
      → start_packet opus_frames pid npos (front ++ (pes_header n v dts pts ++ (more ++ behind))) d
        ≡ done (true, started v pid dts pts more d0)
  unfolding start_packet insert_into_databuf
  start_packet_lem n v dts pts pid npos front more behind d d0 flush h pos e hd hp =
      let header = pes_header n v dts pts in
      let size : length header ≡ header_len v dts pts = length-pes_header n v dts pts in
      let inside : ltb 188 (npos + header_len v dts pts) ≡ false = ground arith in
      let open_end : (npos + header_len v dts pts == 188) ≡ false = ground arith in
      let held : leb 188 (length (front ++ (header ++ (more ++ behind)))) ≡ true = ground (
        arith,
        length-append front (header ++ (more ++ behind)),
        length-append header (more ++ behind),
        length-append more behind,
      ) in
      let after : drop (npos + header_len v dts pts) (front ++ (header ++ (more ++ behind)))
          ≡ more ++ behind =
        ap (drop (npos + header_len v dts pts)) (sym (append_assoc front header (more ++ behind)))
        ∙ drop-append (npos + header_len v dts pts) (front ++ header) (more ++ behind)
            (omega (arith, length-append front header)) in
      rw
        (
          start_packet,
          flush,
          drop-append npos front (header ++ (more ++ behind)) h,
          pes_header_small n v dts pts (more ++ behind) hd hp,
          inside,
          held,
          open_end,
          after,
          take-append (188 - (npos + header_len v dts pts)) more behind (omega arith),
        )
        refl
