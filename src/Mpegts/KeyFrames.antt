-- ===== src/Mpegts/KeyFrames.antt =====
-- src/format/mpegts/mpegts_mux.cpp: a key frame that does not fill its first unit. The stuffing comes behind
-- the adaptation field with the clock, whose length does not count it.
use cpp_streamer.Base.{
  ℕ, zero, suc, ◌+◌, ◌-◌, ◌*◌, ◌%◌, ◌≤◌, ◌<◌, ◌≡◌, refl, sym, ap, ◌∙◌, Bool, true, false, Option,
  some, List, [], ◌∷◌, ◌++◌, append_assoc, append-nil, arith, leb, ◌==◌, if◌then◌else◌, length,
  take, drop, get_elem?, length-append, length-take, take-all, drop-append,
}
use cpp_streamer.Base.Outcome.{done}
use cpp_streamer.Flv.{MediaPacket}
use cpp_streamer.Nalu.Laws.{concat}
use cpp_streamer.Mpegts.Pes.{
  PesMuxer, pid_of, ts_header, ones, pes_header, write_ts, header_of, next_cc, pcr_field, data_room,
  stuffing, ts_round, ts_loop, write_pes, write_pcr,
}
use cpp_streamer.Mpegts.State.{MpegtsDemux}
use cpp_streamer.Mpegts.Demux.{on_callback, start_packet, decode_unit, decode_units, decode}
use cpp_streamer.Mpegts.PesReader.{pes_parse, pes_error}
use cpp_streamer.Mpegts.Units.{
  decode_unit_lem, Carries, fill, take-adaptation_buf_init, length-fill, length-ts_header,
  adaptation_end-clock,
}
use cpp_streamer.Mpegts.Rounds.{put_data_lem, with_clock, clock}
use cpp_streamer.Mpegts.First.{media}
use cpp_streamer.Mpegts.Rest.{ts_loop_step}
use cpp_streamer.Mpegts.RoundTrip.{decode_lem}

pes_parse_bad :
    (a b c e : ℕ) (rest : List ℕ)
    → (a * 0x10000 + b * 0x100 + c == 1) ≡ false
    → 2 ≤ length rest
    → pes_parse (a ∷ b ∷ c ∷ e ∷ rest) ≡ done pes_error
unfolding pes_parse
pes_parse_bad a b c e rest bad long =
    let held : leb 6 (suc (suc (suc (suc (length rest))))) ≡ true = ground arith in
    rw (held, bad) refl

-- What begins with stuffing is no packet.
pes_parse-fill :
    (r n : ℕ) (v : Bool) (dts pts : ℕ) (xs : List ℕ)
    → 0 < r
    → pes_parse (fill r ++ (pes_header n v dts pts ++ xs)) ≡ done pes_error
unfolding fill ones pes_header write_ts
pes_parse-fill zero n v dts pts xs h = absurd (omega arith)
pes_parse-fill (suc zero) n v dts pts xs h = pes_parse_bad _ _ _ _ _ refl (omega arith)
pes_parse-fill (suc (suc zero)) n v dts pts xs h = pes_parse_bad _ _ _ _ _ refl (omega arith)
pes_parse-fill (suc (suc (suc zero))) n v dts pts xs h =
    pes_parse_bad _ _ _ _ _ (ground arith) (omega arith)
pes_parse-fill (suc (suc (suc (suc k)))) n v dts pts xs h =
    pes_parse_bad _ _ _ _ _ (ground arith)
      (omega (arith, length-append (ones k) (pes_header n v dts pts ++ xs)))

abbrev stuffed : MediaPacket → ℕ → ℕ → List ℕ
stuffed p k r = (ts_header (media p) k true true ++ (clock p ++ fill r)) ++ header_of p

ts_round_small :
    (p : MediaPacket) (k r : ℕ)
    → with_clock p ≡ true
    → 0 < length p.bytes
    → 0 < r
    → length p.bytes + length (header_of p) + r ≡ 176
    → ts_round p
        (header_of p)
        k
        true
        (record { left = length p.bytes + length (header_of p); rest = p.bytes })
      ≡ done (
        stuffed p k r ++ take (length p.bytes) p.bytes,
        record {
          left = length p.bytes + length (header_of p) - length (header_of p) - length p.bytes;
          rest = drop (length p.bytes) p.bytes;
        },
      )
unfolding ts_round pcr_field data_room stuffing write_pcr
ts_round_small p k r key pos more e =
    let header = header_of p in
    let total = length p.bytes + length header in
    let short : leb 184 total ≡ false = ground arith in
    let remain : (184 + 512 - total - 8) % 256 ≡ r = omega arith in
    let front = ts_header (media p) k true true ++ (clock p ++ fill r) in
    let size : length front ≡ 12 + r =
      omega (arith, length-ts_header (media p) k true true (clock p ++ fill r), length-fill r) in
    let whole : take (188 - length front) header ≡ header =
      take-all (188 - length front) header (omega arith) in
    let room : (total + 256 - length header) % 256 ≡ length p.bytes = omega arith in
    rw (key, short, remain, take-adaptation_buf_init 176 r (omega arith) (omega arith), whole)
      (put_data_lem (front ++ header) p.bytes (total - length header) _ (length p.bytes)
        (omega (arith, length-append front header)) room pos (omega arith))

abbrev small_unit : MediaPacket → ℕ → List ℕ
small_unit p k =
    stuffed p k (176 - (length p.bytes + length (header_of p))) ++ take (length p.bytes) p.bytes

length-small_unit :
    (p : MediaPacket) (k : ℕ)
    → length p.bytes + length (header_of p) < 176
    → length (small_unit p k) ≡ 188
unfolding write_pcr
length-small_unit p k short =
    let r = 176 - (length p.bytes + length (header_of p)) in
    omega (
      arith,
      length-append (stuffed p k r) (take (length p.bytes) p.bytes),
      length-append (ts_header (media p) k true true ++ (clock p ++ fill r)) (header_of p),
      length-ts_header (media p) k true true (clock p ++ fill r),
      length-fill r,
      length-take (length p.bytes) p.bytes,
    )

ts_loop_small :
    (p : MediaPacket) (k : ℕ)
    → with_clock p ≡ true
    → 0 < length p.bytes
    → length p.bytes + length (header_of p) < 176
    → ts_loop
        (length p.bytes + length (header_of p) + 2)
        p
        (header_of p)
        k
        true
        (record { left = length p.bytes + length (header_of p); rest = p.bytes })
      ≡ done (next_cc k, small_unit p (next_cc k) ∷ [])
unfolding ts_loop
ts_loop_small p k key pos short =
    let total = length p.bytes + length (header_of p) in
    let rest = drop (length p.bytes) p.bytes in
    let nothing : total - length (header_of p) - length p.bytes ≡ 0 = omega arith in
    let fuel : total + 2 ≡ suc (suc total) = omega arith in
    let round : ts_round p (header_of p) (next_cc k) true (record { left = total; rest = p.bytes })
        ≡ done (small_unit p (next_cc k), record { left = 0; rest = rest }) =
      ts_round_small p (next_cc k) (176 - total) key pos (omega arith) (omega arith)
      ∙ ap (λ l. done (small_unit p (next_cc k), record { left = l; rest = rest })) nothing in
    rw fuel (
      ts_loop_step (suc total) p (header_of p) k true (record { left = total; rest = p.bytes })
        (record { left = 0; rest = rest }) (small_unit p (next_cc k)) (next_cc k) [] (omega arith)
        round refl)

sync-small : (p : MediaPacket) (k : ℕ) → get_elem? (small_unit p k ++ []) 0 ≡ some 0x47
unfolding ts_header
sync-small p k = refl

module _ (opus_frames : List ℕ → Option (List (List ℕ))) where
  -- The demuxer refuses the unit.
  decode_stuffed :
      (p : MediaPacket) (k r : ℕ) (xs : List ℕ) (d d0 : MpegtsDemux)
      → 0 < r
      → Carries (pid_of (media p)) d
      → on_callback opus_frames d ≡ done d0
      → decode_unit opus_frames (stuffed p k r ++ xs) d ≡ done (false, d0)
  unfolding start_packet header_of write_pcr
  decode_stuffed p k r xs d d0 pos c flush =
      let h = ts_header (media p) k true true in
      let rest = fill r ++ (header_of p ++ xs) in
      let shape : stuffed p k r ++ xs ≡ h ++ (clock p ++ rest) =
        append_assoc (h ++ (clock p ++ fill r)) (header_of p) xs
        ∙ append_assoc h (clock p ++ fill r) (header_of p ++ xs) in
      let after : drop 12 (h ++ (clock p ++ rest)) ≡ rest =
        ap (drop 12) (sym (append_assoc h (clock p) rest))
        ∙ drop-append 12 (h ++ clock p) rest (length-ts_header (media p) k true true (clock p)) in
      rw shape (
        decode_unit_lem opus_frames false (media p) k true true (clock p) rest d d0
          (adaptation_end-clock (media p) k true true (p.dts * 90) rest) c
          (rw
            (
              start_packet,
              flush,
              after,
              pes_parse-fill r (length p.bytes) (media p) (p.dts * 90) (p.pts * 90) xs pos,
            )
            refl))

  decode_units_small :
      (p : MediaPacket) (k : ℕ) (d d0 : MpegtsDemux)
      → length p.bytes + length (header_of p) < 176
      → Carries (pid_of (media p)) d
      → on_callback opus_frames d ≡ done d0
      → decode_units opus_frames 1 false (concat (small_unit p k ∷ [])) d ≡ done (false, d0)
  unfolding decode_units
  decode_units_small p k d d0 short c flush =
      let total = length p.bytes + length (header_of p) in
      let shape : small_unit p k ++ []
          ≡ stuffed p k (176 - total) ++ (take (length p.bytes) p.bytes ++ []) =
        append_assoc (stuffed p k (176 - total)) (take (length p.bytes) p.bytes) [] in
      let refused : decode_unit opus_frames (small_unit p k ++ []) d ≡ done (false, d0) =
        ap (λ b. decode_unit opus_frames b d) shape
        ∙ decode_stuffed p k (176 - total) (take (length p.bytes) p.bytes ++ []) d d0 (omega arith)
            c flush in
      rw (sync-small p k, refused) refl

  -- A key frame of video that is not empty and that, with its header, is shorter than 176 bytes is written
  -- as one unit of 188 bytes, and no demuxer that has its stream and can output what it holds takes it:
  -- Decode returns -1 with nothing held of it.
  pub key_frame_lost :
      (p : MediaPacket) (m : PesMuxer) (d d0 : MpegtsDemux)
      → with_clock p ≡ true
      → 0 < length p.bytes
      → length p.bytes + length (header_of p) < 176
      → Carries (pid_of (media p)) d
      → on_callback opus_frames d ≡ done d0
      → (m' : PesMuxer) × (unit : List ℕ) × (write_pes p m ≡ done (m', unit ∷ []))
        × (length unit ≡ 188)
        × (decode opus_frames unit d ≡ done (false, d0))
  unfolding write_pes
  key_frame_lost p m d d0 key pos short c flush =
      let k = if media p then m.video_cc else m.audio_cc in
      let unit = small_unit p (next_cc k) in
      let size : length unit ≡ 188 = length-small_unit p (next_cc k) short in
      (
        if media p then record m { video_cc = next_cc k } else record m { audio_cc = next_cc k },
        unit,
        rw (write_pes, ts_loop_small p k key pos short) refl,
        size,
        ap (λ b. decode opus_frames b d) (sym (append-nil unit))
            ∙ decode_lem opus_frames (unit ∷ []) d (size, tt) (omega arith)
            ∙ decode_units_small p (next_cc k) d d0 short c flush,
      )
