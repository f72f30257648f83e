-- ===== src/Mpegts/Rest.antt =====
-- src/format/mpegts: the units behind the first one of a packet, read by the demuxer.
use cpp_streamer.Base.{
  ℕ, zero, suc, ◌+◌, ◌-◌, ◌<◌, min, ◌≡◌, refl, sym, ap, ◌∙◌, Bool, true, false, not, Option, some,
  List, [], ◌∷◌, ◌++◌, append_assoc, append-nil, arith, ltb, leb, length, take, drop, get_elem?,
  All, length-append, length-take, length-drop, take-append-drop, drop-append,
}
use mathlib.Core.Path.{subst}
use cpp_streamer.Base.Outcome.{done}
use cpp_streamer.Flv.{MediaPacket}
use cpp_streamer.Nalu.Laws.{concat}
use cpp_streamer.Mpegts.Pes.{Pending, is_video, pid_of, ts_header, next_cc, ts_round, ts_loop}
use cpp_streamer.Mpegts.State.{MpegtsDemux, insert_into_databuf}
use cpp_streamer.Mpegts.Demux.{decode_unit, decode_units}
use cpp_streamer.Mpegts.Units.{Carries, length-ts_header, decode_unit_lem, go_on_lem}
use cpp_streamer.Mpegts.Rounds.{npos_lem, filled, length-filled, head, length-head, ts_round_next}

sync-head :
    (v : Bool) (k : ℕ) (first : Bool) (left : ℕ) (xs ys : List ℕ)
    → get_elem? ((head v k first left ++ xs) ++ ys) 0 ≡ some 0x47
unfolding ts_header
sync-head v k first left xs ys = refl

pub ts_loop_step :
    (fuel : ℕ) (p : MediaPacket) (header : List ℕ) (k : ℕ) (first : Bool) (s s' : Pending)
    (unit : List ℕ) (last : ℕ) (units : List (List ℕ))
    → 0 < s.left
    → ts_round p header (next_cc k) first s ≡ done (unit, s')
    → ts_loop fuel p header (next_cc k) false s' ≡ done (last, units)
    → ts_loop (suc fuel) p header k first s ≡ done (last, unit ∷ units)
unfolding ts_loop
ts_loop_step fuel p header k first s s' unit last units h round more =
    let goes_on : ltb 0 s.left ≡ true = ground arith in rw (ts_loop, goes_on, round, more) refl

module _ (opus_frames : List ℕ → Option (List (List ℕ))) where
  decode_unit_next :
      (v : Bool) (k left : ℕ) (more behind : List ℕ) (d : MpegtsDemux)
      → Carries (pid_of v) d
      → length more ≡ min 184 left
      → decode_unit opus_frames ((head v k false left ++ more) ++ behind) d
        ≡ done (true, insert_into_databuf more (pid_of v) d)
  decode_unit_next v k left more behind d c e =
      let h = ts_header v k false (not (leb 184 left)) in
      let shape : (head v k false left ++ more) ++ behind ≡ h ++ (filled left ++ (more ++ behind)) =
        append_assoc (h ++ filled left) more behind
        ∙ append_assoc h (filled left) (more ++ behind) in
      let size : length (h ++ filled left) ≡ 4 + length (filled left) =
        length-ts_header v k false (not (leb 184 left)) (filled left) in
      rw shape (
        decode_unit_lem opus_frames true v k false (not (leb 184 left)) (filled left)
          (more ++ behind) d (insert_into_databuf more (pid_of v) d)
          (npos_lem v k false left (more ++ behind)) c
          (rw (sym (append_assoc h (filled left) (more ++ behind))) (
            go_on_lem opus_frames (pid_of v) (4 + length (filled left)) (h ++ filled left) more
              behind d size (omega (arith, length-filled left)))))

  pub decode_units_step :
      (m : ℕ) (ret : Bool) (u more : List ℕ) (d d' : MpegtsDemux)
      → length u ≡ 188
      → get_elem? (u ++ more) 0 ≡ some 0x47
      → decode_unit opus_frames (u ++ more) d ≡ done (true, d')
      → decode_units opus_frames (suc m) ret (u ++ more) d ≡ decode_units opus_frames m true more d'
  unfolding decode_units
  decode_units_step m ret u more d d' h sync e =
      rw (decode_units, sync, e, drop-append 188 u more h) refl

  -- Units that the demuxer appends as these bytes.
  abbrev pub Appends : Bool → List ℕ → List (List ℕ) → Type 0
  Appends v bytes units =
      All (λ u. length u ≡ 188) units
      × ((d : MpegtsDemux)
          → Carries (pid_of v) d
          → d.last_pid ≡ pid_of v
          → decode_units opus_frames (length units) true (concat units) d
            ≡ done (true, record d { held = d.held ++ bytes }))

  Appends-next :
      (v : Bool) (k left : ℕ) (more bytes : List ℕ) (units : List (List ℕ))
      → length more ≡ min 184 left
      → Appends v bytes units
      → Appends v (more ++ bytes) ((head v k false left ++ more) ∷ units)
  unfolding insert_into_databuf
  Appends-next v k left more bytes units e (sizes, reads) =
      let unit = head v k false left ++ more in
      let size : length unit ≡ 188 =
        omega (arith, length-append (head v k false left) more, length-head v k false left) in
      (
        (size, sizes),
        λ d c same.
            let d' : MpegtsDemux = record d { held = d.held ++ more; last_pid = pid_of v } in
            let c' : Carries (pid_of v) d' = record { not_pmt = c.not_pmt; once = c.once } in
            decode_units_step (length units) true unit (concat units) d d' size
              (sync-head v k false left more (concat units))
              (decode_unit_next v k left more (concat units) d c e)
            ∙ (reads d' c' refl
                ∙ (ap (λ xs. done (true, record d { held = xs; last_pid = pid_of v }))
                      (append_assoc d.held more bytes)
                    ∙ ap
                        (λ i.
                          done (true, record d { held = d.held ++ (more ++ bytes); last_pid = i }))
                        (sym same))),
      )

  -- The units behind the first one: the demuxer appends the bytes left.
  pub ts_loop_rest :
      (fuel : ℕ) (p : MediaPacket) (header : List ℕ) (k : ℕ) (rest : List ℕ)
      → length rest < fuel
      → (last : ℕ) × (units : List (List ℕ)) × (ts_loop fuel p header k false
            (record { left = length rest; rest = rest })
          ≡ done (last, units))
        × Appends (is_video p.av_type) rest units
  unfolding ts_loop decode_units
  ts_loop_rest zero p header k rest h = absurd (omega arith)
  ts_loop_rest (suc fuel) p header k [] h =
      (k, [], refl, (tt, λ d c e. rw (append-nil d.held) refl))
  ts_loop_rest (suc fuel) p header k (x ∷ xs) h =
      let rest = x ∷ xs in
      let n = min 184 (length rest) in
      let shorter : length (drop n rest) ≡ length rest - n = length-drop n rest in
      let unit = head (is_video p.av_type) (next_cc k) false (length rest) ++ take n rest in
      let shape : length (take n rest) ≡ min 184 (length rest) =
        omega (arith, length-take n rest) in
      let round : ts_round p header (next_cc k) false (record { left = length rest; rest = rest })
          ≡ done (unit, record { left = length (drop n rest); rest = drop n rest }) =
        ts_round_next p header (next_cc k) rest (omega arith)
        ∙ ap (λ l. done (unit, record { left = l; rest = drop n rest })) (sym shorter) in
      let (last, units, loop, appends) =
        ts_loop_rest fuel p header (next_cc k) (drop n rest) (omega arith) in
      (
        last,
        unit ∷ units,
        ts_loop_step fuel p header k false (record { left = length rest; rest = rest })
            (record { left = length (drop n rest); rest = drop n rest }) unit last units
            (omega arith) round loop,
        subst (λ bs. Appends (is_video p.av_type) bs (unit ∷ units)) (take-append-drop n rest)
            (Appends-next (is_video p.av_type) (next_cc k) (length rest) (take n rest) (drop n rest)
              units shape appends),
      )
