-- ===== src/Mpegts/First.antt =====
-- src/format/mpegts: the first unit of a packet, from WritePes to Decode.
use cpp_streamer.Base.{◌^◌}
use cpp_streamer.Base.{
  ℕ, ◌+◌, ◌-◌, ◌*◌, ◌≤◌, ◌<◌, min, ◌≡◌, refl, sym, ap, ◌∙◌, Bool, true, false, not, Option, List,
  ◌++◌, append_assoc, arith, leb, if◌then◌else◌, length, take, drop, length-take, length-drop,
  Bool-cases, inl, inr, ◌⊎◌,
}
use cpp_streamer.Base.Outcome.{done}
use cpp_streamer.Flv.{MediaPacket}
use cpp_streamer.Mpegts.Pes.{write_pcr, is_video, pid_of, ts_header, header_of, ts_round}
use cpp_streamer.Mpegts.State.{MpegtsDemux}
use cpp_streamer.Mpegts.Demux.{on_callback, decode_unit}
use cpp_streamer.Mpegts.PesReader.{adaptation_end}
use cpp_streamer.Mpegts.Units.{Carries, adaptation_end-clock, decode_unit_lem, length-ts_header}
use cpp_streamer.Mpegts.Rounds.{
  npos_lem, filled, length-filled, ts_round_first, ts_round-clock, with_clock, clock,
}
use cpp_streamer.Mpegts.Times.{both, header_len, length-pes_header}
use cpp_streamer.Mpegts.Callback.{started, start_packet_lem}

abbrev pub media : MediaPacket → Bool
media p = is_video p.av_type

abbrev pub size_of_header : MediaPacket → ℕ
size_of_header p = header_len (media p) (p.dts * 90) (p.pts * 90)

pub length-header_of : (p : MediaPacket) → length (header_of p) ≡ size_of_header p
unfolding header_of
length-header_of p = length-pes_header (length p.bytes) (media p) (p.dts * 90) (p.pts * 90)

abbrev pub unit_of : MediaPacket → ℕ → Bool → List ℕ → ℕ → List ℕ
unit_of p k adaptation mid n =
    ((ts_header (media p) k true adaptation ++ mid) ++ header_of p) ++ take n p.bytes

-- The first unit: its header, the adaptation field, the packet's header, and bytes of the packet.
pub record First (p : MediaPacket) (k : ℕ) : Type 0 where
  pub adaptation : Bool
  pub mid : List ℕ
  pub n : ℕ
  pub ends :
      (xs : List ℕ)
      → (if adaptation
          then adaptation_end (ts_header (media p) k true adaptation ++ (mid ++ xs))
          else done 4)
        ≡ done (4 + length mid)
  pub full : length mid + size_of_header p + n ≡ 184
  pub some_bytes : 0 < n
  pub held : n ≤ length p.bytes
  pub round :
      ts_round p
        (header_of p)
        k
        true
        (record { left = length p.bytes + length (header_of p); rest = p.bytes })
      ≡ done (
        unit_of p k adaptation mid n,
        record { left = length (drop n p.bytes); rest = drop n p.bytes },
      )

-- The packets that WritePes writes well.
abbrev pub Fits : MediaPacket → Type 0
Fits p = (with_clock p ≡ false) ⊎ (184 ≤ length p.bytes + length (header_of p))

header_len_bounds :
    (v : Bool) (dts pts : ℕ) → (14 ≤ header_len v dts pts) × (header_len v dts pts ≤ 19)
header_len_bounds v dts pts = elim (Bool-cases (both v dts pts)) [
  | inl e ↦ rw e (omega arith)
  | inr e ↦ rw e (omega arith)
]

-- What is left in numbers is what is left in bytes.
left_lem : (p : MediaPacket) (h n : ℕ) → length p.bytes + h - h - n ≡ length (drop n p.bytes)
left_lem p h n = omega (arith, length-drop n p.bytes)

plain_First : (p : MediaPacket) (k : ℕ) → 0 < length p.bytes → with_clock p ≡ false → First p k
plain_First p k pos plain =
    let size : length (header_of p) ≡ size_of_header p = length-header_of p in
    let (low, high) = header_len_bounds (media p) (p.dts * 90) (p.pts * 90) in
    let total = length p.bytes + length (header_of p) in
    let n = min 184 total - length (header_of p) in
    record {
      adaptation = not (leb 184 total);
      mid = filled total;
      n = n;
      ends = npos_lem (media p) k true total;
      full = omega (arith, length-filled total);
      some_bytes = omega arith;
      held = omega arith;
      round =
          ts_round_first p (header_of p) k plain (omega arith) pos total n refl (omega arith)
          ∙ ap
              (λ l. done (
                unit_of p k (not (leb 184 total)) (filled total) n,
                record { left = l; rest = drop n p.bytes },
              ))
              (left_lem p (length (header_of p)) n);
    }

clock_First :
    (p : MediaPacket) (k : ℕ)
    → with_clock p ≡ true
    → 184 ≤ length p.bytes + length (header_of p)
    → First p k
unfolding write_pcr
clock_First p k key long =
    let size : length (header_of p) ≡ size_of_header p = length-header_of p in
    let (low, high) = header_len_bounds (media p) (p.dts * 90) (p.pts * 90) in
    let total = length p.bytes + length (header_of p) in
    let n = 176 - length (header_of p) in
    record {
      adaptation = true;
      mid = clock p;
      n = n;
      ends = adaptation_end-clock (media p) k true true (p.dts * 90);
      full = omega arith;
      some_bytes = omega arith;
      held = omega arith;
      round =
          ts_round-clock p (header_of p) k key (omega arith) total n refl long (omega arith)
          ∙ ap
              (λ l. done (unit_of p k true (clock p) n, record { left = l; rest = drop n p.bytes }))
              (left_lem p (length (header_of p)) n);
    }

pub header_unit : (p : MediaPacket) (k : ℕ) → 0 < length p.bytes → Fits p → First p k
header_unit p k pos (inl plain) = plain_First p k pos plain
header_unit p k pos (inr long) = elim (Bool-cases (with_clock p)) [
  | inl key ↦ clock_First p k key long
  | inr plain ↦ plain_First p k pos plain
]

module _ (opus_frames : List ℕ → Option (List (List ℕ))) where
  pub decode_unit-header :
      (p : MediaPacket) (k : ℕ) (f : First p k) (behind : List ℕ) (d d0 : MpegtsDemux)
      → Carries (pid_of (media p)) d
      → on_callback opus_frames d ≡ done d0
      → p.dts * 90 < 2 ^ 31
      → p.pts * 90 < 2 ^ 31
      → decode_unit opus_frames (unit_of p k f.adaptation f.mid f.n ++ behind) d
        ≡ done (
          true,
          started opus_frames
              (media p)
              (pid_of (media p))
              (p.dts * 90)
              (p.pts * 90)
              (take f.n p.bytes)
              d0,
        )
  unfolding header_of
  decode_unit-header p k f behind d d0 c flush hd hp =
      let v = media p in
      let h = ts_header v k true f.adaptation in
      let more = take f.n p.bytes in
      let shape : unit_of p k f.adaptation f.mid f.n ++ behind
          ≡ h ++ (f.mid ++ (header_of p ++ (more ++ behind))) =
        append_assoc ((h ++ f.mid) ++ header_of p) more behind
        ∙ append_assoc (h ++ f.mid) (header_of p) (more ++ behind)
        ∙ append_assoc h f.mid (header_of p ++ (more ++ behind)) in
      let size : length more ≡ f.n = omega (arith, length-take f.n p.bytes, f.held) in
      rw shape (
        decode_unit_lem opus_frames true v k true f.adaptation f.mid
          (header_of p ++ (more ++ behind)) d
          (started opus_frames v (pid_of v) (p.dts * 90) (p.pts * 90) more d0)
          (f.ends (header_of p ++ (more ++ behind))) c
          (rw (sym (append_assoc h f.mid (header_of p ++ (more ++ behind)))) (
            start_packet_lem opus_frames (length p.bytes) v (p.dts * 90) (p.pts * 90) (pid_of v)
              (4 + length f.mid) (h ++ f.mid) more behind d d0 flush
              (length-ts_header v k true f.adaptation f.mid) (omega (arith, f.some_bytes))
              (omega (arith, f.full)) hd hp)))
