-- ===== src/Mpegts/RoundTrip.antt =====
-- src/format/mpegts: the units of a packet, from WritePes to Decode.
use cpp_streamer.Base.{
  ℕ, suc, ◌+◌, ◌*◌, ◌/◌, ◌%◌, ◌^◌, ◌<◌, ◌≡◌, refl, ap, ◌∙◌, Bool, true, false, not, ◌&&◌, ◌||◌,
  Option, some, List, [], ◌∷◌, ◌++◌, arith, ltb, ◌==◌, if◌then◌else◌, length, take, drop, get_elem?,
  All, length-append, length-take, length-drop, take-append-drop, Bool-cases, inl, inr,
}
use cpp_streamer.Base.Outcome.{done}
use cpp_streamer.Flv.{MediaPacket}
use cpp_streamer.Nalu.Laws.{concat}
use cpp_streamer.Mpegts.Pes.{PesMuxer, pid_of, ts_header, header_of, next_cc, ts_loop, write_pes}
use cpp_streamer.Mpegts.State.{MpegtsDemux}
use cpp_streamer.Mpegts.Demux.{on_callback, decode_units, decode}
use cpp_streamer.Mpegts.PsiReader.{is_pmt}
use cpp_streamer.Mpegts.Units.{Carries, times, length-ts_header}
use cpp_streamer.Mpegts.Times.{both, widened, reduced, widened_small}
use cpp_streamer.Mpegts.Callback.{started, on_callback-Flushed}
use cpp_streamer.Mpegts.Rest.{ts_loop_rest, ts_loop_step, decode_units_step}
use cpp_streamer.Mpegts.First.{
  First, Fits, media, unit_of, length-header_of, header_unit, decode_unit-header,
}

-- The times as the demuxer keeps them: the decoding time only where the header has it and it is not 0.
abbrev pub kept_dts : MediaPacket → ℕ
kept_dts p =
    if both (media p) (p.dts * 90) (p.pts * 90) && not (p.dts * 90 == 0)
    then p.dts * 90
    else p.pts * 90

-- The demuxer that holds a packet.
abbrev pub arrived : MediaPacket → MpegtsDemux → MpegtsDemux
arrived p d0 = record d0 {
  held = p.bytes;
  last_pid = pid_of (media p);
  last_dts = kept_dts p;
  last_pts = p.pts * 90;
}

times_lem :
    (v : Bool) (dts pts : ℕ)
    → dts < 2 ^ 31
    → pts < 2 ^ 31
    → (let read_dts = if both v dts pts then widened (reduced dts) else 0 in
        if read_dts == 0 then widened (reduced pts) else read_dts)
      ≡ (if both v dts pts && not (dts == 0) then dts else pts)
times_lem v dts pts hd hp =
    rw (widened_small dts hd, widened_small pts hp)
      (elim (Bool-cases (both v dts pts)) [
        | inl e ↦ rw e (elim (Bool-cases (dts == 0)) [ inl z ↦ rw z refl | inr z ↦ rw z refl ])
        | inr e ↦ rw e refl
      ])

length-concat :
    (units : List (List ℕ))
    → All (λ u. length u ≡ 188) units
    → length (concat units) ≡ 188 * length units
length-concat [] a = refl
length-concat (u ∷ units) (h, a) =
    omega (arith, length-append u (concat units), length-concat units a)

module _ (opus_frames : List ℕ → Option (List (List ℕ))) where
  sync-unit_of :
      (p : MediaPacket) (k : ℕ) (a : Bool) (mid : List ℕ) (n : ℕ) (ys : List ℕ)
      → get_elem? (unit_of p k a mid n ++ ys) 0 ≡ some 0x47
  unfolding ts_header
  sync-unit_of p k a mid n ys = refl

  length-unit_of :
      (p : MediaPacket) (k : ℕ) (f : First p k) → length (unit_of p k f.adaptation f.mid f.n) ≡ 188
  length-unit_of p k f =
      let h = ts_header (media p) k true f.adaptation in
      omega (
        arith,
        length-append ((h ++ f.mid) ++ header_of p) (take f.n p.bytes),
        length-append (h ++ f.mid) (header_of p),
        length-ts_header (media p) k true f.adaptation f.mid,
        length-header_of p,
        length-take f.n p.bytes,
        f.full,
        f.held,
      )

  -- What has arrived, once the bytes behind the first unit are there too.
  arrived_lem :
      (p : MediaPacket) (n : ℕ) (d0 : MpegtsDemux)
      → d0.held ≡ []
      → p.dts * 90 < 2 ^ 31
      → p.pts * 90 < 2 ^ 31
      → (let s =
            started opus_frames
              (media p)
              (pid_of (media p))
              (p.dts * 90)
              (p.pts * 90)
              (take n p.bytes)
              d0 in
          record s { held = s.held ++ drop n p.bytes })
        ≡ arrived p d0
  arrived_lem p n d0 empty hd hp =
      let bytes : (d0.held ++ take n p.bytes) ++ drop n p.bytes ≡ p.bytes =
        ap (λ xs. (xs ++ take n p.bytes) ++ drop n p.bytes) empty ∙ take-append-drop n p.bytes in
      rw (bytes, times_lem (media p) (p.dts * 90) (p.pts * 90) hd hp, widened_small (p.pts * 90) hp)
        refl

  -- The units of the whole loop.
  loop_lem :
      (p : MediaPacket) (k : ℕ)
      → 0 < length p.bytes
      → Fits p
      → (last : ℕ) × (units : List (List ℕ)) × (ts_loop
            (length p.bytes + length (header_of p) + 2)
            p
            (header_of p)
            k
            true
            (record { left = length p.bytes + length (header_of p); rest = p.bytes })
          ≡ done (last, units))
        × All (λ u. length u ≡ 188) units
        × (0 < length units)
        × ((d d0 : MpegtsDemux)
            → Carries (pid_of (media p)) d
            → on_callback opus_frames d ≡ done d0
            → p.dts * 90 < 2 ^ 31
            → p.pts * 90 < 2 ^ 31
            → decode_units opus_frames (length units) false (concat units) d
              ≡ done (true, arrived p d0))
  loop_lem p k pos fits =
      let f = header_unit p (next_cc k) pos fits in
      let total = length p.bytes + length (header_of p) in
      let rest = drop f.n p.bytes in
      let fuel : total + 2 ≡ suc (total + 1) = omega arith in
      let unit = unit_of p (next_cc k) f.adaptation f.mid f.n in
      let (last, units, loop, (sizes, reads)) =
        ts_loop_rest opus_frames (total + 1) p (header_of p) (next_cc k) rest
          (omega (arith, length-drop f.n p.bytes)) in
      (
        last,
        unit ∷ units,
        rw fuel (
            ts_loop_step (total + 1) p (header_of p) k true
              (record { left = total; rest = p.bytes }) (record { left = length rest; rest = rest })
              unit last units (omega arith) f.round loop),
        (length-unit_of p (next_cc k) f, sizes),
        omega arith,
        λ d d0 c flush hd hp.
            let flushed = on_callback-Flushed opus_frames d d0 flush in
            let d1 =
              started opus_frames (media p) (pid_of (media p)) (p.dts * 90) (p.pts * 90)
                (take f.n p.bytes) d0 in
            let c1 : Carries (pid_of (media p)) d1 = record {
              not_pmt = ap (is_pmt (pid_of (media p))) flushed.programs ∙ c.not_pmt;
              once = ap (times (pid_of (media p))) flushed.streams ∙ c.once;
            } in
            decode_units_step opus_frames (length units) false unit (concat units) d d1
              (length-unit_of p (next_cc k) f)
              (sync-unit_of p (next_cc k) f.adaptation f.mid f.n (concat units))
              (decode_unit-header opus_frames p (next_cc k) f (concat units) d d0 c flush hd hp)
            ∙ reads d1 c1 refl
            ∙ ap (λ s. done (true, s)) (arrived_lem p f.n d0 flushed.empty hd hp),
      )

  pub decode_lem :
      (units : List (List ℕ)) (d : MpegtsDemux)
      → All (λ u. length u ≡ 188) units
      → 0 < length units
      → decode opus_frames (concat units) d
        ≡ decode_units opus_frames (length units) false (concat units) d
  unfolding decode
  decode_lem units d a pos =
      let size : length (concat units) ≡ 188 * length units = length-concat units a in
      let whole : (ltb (188 * length units) 188 || not (188 * length units % 188 == 0)) ≡ false =
        ground arith in
      let count : 188 * length units / 188 ≡ length units = omega arith in
      rw (decode, size, whole, count) refl

  -- WritePes then Decode, for a packet whose data is not empty, whose times are below 2^31 in units of
  -- 1/90 ms, and which is no key frame of video or fills, with its header, the 184 bytes behind the header
  -- of a unit: WritePes returns, without a read outside the data, units of 188 bytes each. A demuxer whose
  -- tables have the packet's stream once, and which can output what it holds, reads these units with code
  -- 0, outputs what it held, and then holds exactly the packet's data with its presentation time; the
  -- decoding time is the packet's where the header has it, for video whose times differ, and if it is
  -- not 0, and else the presentation time.
  pub decode-write_pes :
      (p : MediaPacket) (m : PesMuxer) (d d0 : MpegtsDemux)
      → 0 < length p.bytes
      → Fits p
      → p.dts * 90 < 2 ^ 31
      → p.pts * 90 < 2 ^ 31
      → Carries (pid_of (media p)) d
      → on_callback opus_frames d ≡ done d0
      → (m' : PesMuxer) × (units : List (List ℕ)) × (write_pes p m ≡ done (m', units))
        × All (λ u. length u ≡ 188) units
        × (decode opus_frames (concat units) d ≡ done (true, arrived p d0))
  unfolding write_pes
  decode-write_pes p m d d0 pos fits hd hp c flush =
      let k = if media p then m.video_cc else m.audio_cc in
      let (last, units, loop, sizes, some_units, reads) = loop_lem p k pos fits in
      (
        if media p then record m { video_cc = last } else record m { audio_cc = last },
        units,
        rw (write_pes, loop) refl,
        sizes,
        decode_lem units d sizes some_units ∙ reads d d0 c flush hd hp,
      )
