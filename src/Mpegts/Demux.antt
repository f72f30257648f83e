-- ===== src/Mpegts/Demux.antt =====
-- src/format/mpegts/mpegts_demux.cpp: DecodeUnit and Decode of a buffer of units, and what is output between
-- two packets. Reports and logs, and the wait of Output, are left out.
use cpp_streamer.Base.{
  ℕ, zero, suc, ◌+◌, ◌-◌, ◌*◌, ◌/◌, ◌%◌, Bool, true, false, not, ◌||◌, Option, none, some, List, [],
  ◌∷◌, ◌++◌, ltb, ◌==◌, if◌then◌else◌, length, take, drop,
}
use cpp_streamer.Base.Outcome.{Outcome, done, fault, ◌>>=◌}
use cpp_streamer.Flv.{AvType, CodecType, MediaPacket, video, audio, opus}
use cpp_streamer.Nalu.{annexb2nalus}
use cpp_streamer.Mpegts.State.{StreamPidInfo, MpegtsDemux, at, need, insert_into_databuf}
use cpp_streamer.Mpegts.MediaInfo.{media_info, output_nalus, output_frames}
use cpp_streamer.Mpegts.PesReader.{pes_parse, adaptation_end, pes_error, pes_data}
use cpp_streamer.Mpegts.PsiReader.{read_pat, read_pmt, is_pmt}

-- GetOpusFrameVector is given: the frames of a packet, if it has that form.
module _ (opus_frames : List ℕ → Option (List (List ℕ))) where
  -- What OnCallback outputs for the bytes held, of this kind.
  unfoldable pub outputs : AvType × CodecType → MpegtsDemux → Outcome (List MediaPacket)
  outputs (av, codec) d =
      let p : MediaPacket = record {
        av_type = av;
        codec_type = codec;
        is_seq_hdr = false;
        is_key_frame = false;
        dts = d.last_dts / 90;
        pts = d.last_pts / 90;
        bytes = d.held;
      } in
      elim av [
        | video ↦ output_nalus p (annexb2nalus p.bytes).1
        | audio ↦ elim codec [
          | opus ↦ elim (opus_frames p.bytes) [
            | none ↦ done []
            | some frames ↦ done (output_frames p 0 frames)
          ]
          | other ↦ done (p ∷ [])
        ]
        | other ↦ done (p ∷ [])
      ]

  unfoldable pub packets_of : MpegtsDemux → Outcome (List MediaPacket)
  unfolding outputs
  packets_of d = outputs (media_info d.last_pid d.stream_pid_vec) d

  unfoldable pub deliver : List ℕ → Outcome (List MediaPacket) → MpegtsDemux → Outcome MpegtsDemux
  deliver [] packets d = done d
  deliver (c ∷ cs) packets d = do ps ← packets; done (record d { held = []; sent = d.sent ++ ps })

  -- OnCallback
  unfoldable pub on_callback : MpegtsDemux → Outcome MpegtsDemux
  unfolding packets_of deliver
  on_callback d = deliver d.held (packets_of d) d

  -- The first unit of a packet.
  unfoldable pub start_packet : ℕ → ℕ → List ℕ → MpegtsDemux → Outcome (Bool × MpegtsDemux)
  start_packet pid npos b d = do
    d' ← on_callback d
    r ← pes_parse (drop npos b)
    elim r [
      | pes_error ↦ done (false, d')
      | pes_data pos dts pts ↦
          let timed = record d' { last_pts = pts; last_dts = if dts == 0 then pts else dts } in
          if ltb 188 (npos + pos) then fault else (do
            _ ← need b 188
            done (
              true,
              (if npos + pos == 188
                  then timed
                  else insert_into_databuf (take (188 - (npos + pos)) (drop (npos + pos) b)) pid
                      timed),
            ))
    ]

  unfoldable pub go_on : ℕ → ℕ → List ℕ → MpegtsDemux → Outcome (Bool × MpegtsDemux)
  go_on pid npos b d = if ltb 188 npos then fault else (do
    _ ← need b 188
    done (true, insert_into_databuf (take (188 - npos) (drop npos b)) pid d))

  -- The loop over the streams, which ends at an error.
  unfoldable pub streams_loop :
      List StreamPidInfo → Bool → ℕ → ℕ → List ℕ → MpegtsDemux → Outcome (Bool × MpegtsDemux)
  streams_loop [] start pid npos b d = done (true, d)
  streams_loop (s ∷ ss) start pid npos b d = elim (s.elementary_pid == pid) [
    | false ↦ streams_loop ss start pid npos b d
    | true ↦ (do
      r ← if start then start_packet pid npos b d else go_on pid npos b d
      elim (r.0) [ false ↦ done (false, r.1) | true ↦ streams_loop ss start pid npos b r.1 ])
  ]

  unfoldable pub decode_payload : Bool → ℕ → ℕ → List ℕ → MpegtsDemux → Outcome (Bool × MpegtsDemux)
  decode_payload start pid npos b d =
      if pid == 0
      then read_pat start npos b d
      else if pid == 1 || pid == 2 || pid == 3 || pid == 0x11
      then done (true, d)
      else if is_pmt pid d.pid_vec
      then read_pmt start npos b d
      else if pid == 0x42 || pid == 0x1fff
      then done (true, d)
      else streams_loop d.stream_pid_vec start pid npos b d

  -- DecodeUnit
  unfoldable pub decode_unit : List ℕ → MpegtsDemux → Outcome (Bool × MpegtsDemux)
  decode_unit b d = do
    b1 ← at b 1
    b2 ← at b 2
    b3 ← at b 3
    let control = b3 / 16 % 4
    npos ← if control == 2 || control == 3 then adaptation_end b else done 4
    if control == 1 || control == 3
        then decode_payload (b1 / 64 % 2 == 1) ((b1 * 256 + b2) % 0x2000) npos b d
        else done (true, d)

  -- The loop of Decode over `n` units, with the code so far.
  unfoldable pub decode_units : ℕ → Bool → List ℕ → MpegtsDemux → Outcome (Bool × MpegtsDemux)
  decode_units zero ret b d = done (ret, d)
  decode_units (suc n) ret b d = do
    sync ← at b 0
    elim (sync == 0x47) [
      | false ↦ decode_units n ret (drop 188 b) d
      | true ↦ (do
        r ← decode_unit b d
        elim (r.0) [ false ↦ done (false, r.1) | true ↦ decode_units n true (drop 188 b) r.1 ])
    ]

  unfoldable pub decode : List ℕ → MpegtsDemux → Outcome (Bool × MpegtsDemux)
  unfolding decode_units decode_unit adaptation_end decode_payload read_pat read_pmt is_pmt
      streams_loop start_packet go_on pes_parse insert_into_databuf on_callback media_info
      output_nalus output_frames
  decode b d =
      if ltb (length b) 188 || not (length b % 188 == 0)
      then done (false, d)
      else decode_units (length b / 188) false b d
