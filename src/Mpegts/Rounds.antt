-- ===== src/Mpegts/Rounds.antt =====
-- src/format/mpegts/mpegts_mux.cpp: the units that the rounds of WritePes build.
use cpp_streamer.Base.{
  ℕ, ◌+◌, ◌-◌, ◌*◌, ◌%◌, ◌≤◌, ◌<◌, min, ◌≡◌, refl, Bool, true, false, not, ◌&&◌, List, [], ◌∷◌,
  ◌++◌, append-nil, arith, ltb, leb, if◌then◌else◌, length, take, drop, length-append, take-all,
  Bool-cases, inl, inr,
}
use cpp_streamer.Base.Outcome.{done}
use cpp_streamer.Flv.{MediaPacket}
use cpp_streamer.Mpegts.Pes.{
  is_video, ts_header, stuffing, data_room, put_data, pcr_field, ts_round, write_pcr,
}
use cpp_streamer.Mpegts.Units.{
  fill, take-adaptation_buf_init, length-fill, adaptation_end-ts_header,
}
use cpp_streamer.Mpegts.PesReader.{adaptation_end}

pub put_data_lem :
    (front rest : List ℕ) (left room n : ℕ)
    → length front + n ≡ 188
    → room ≡ n
    → 0 < n
    → n ≤ length rest
    → put_data front left room rest
      ≡ done (front ++ take n rest, record { left = left - n; rest = drop n rest })
unfolding put_data
put_data_lem front rest left room n h e pos held =
    let open_end : leb 188 (length front) ≡ false = ground arith in
    let count : min (188 - length front) room ≡ n = omega arith in
    let there : ltb (length rest) n ≡ false = ground arith in rw (open_end, count, there) refl

-- What fills a unit for `left` bytes.
pub filled : ℕ → List ℕ
filled left = if leb 184 left then [] else fill (184 - left)

stuffing-fill : (first : Bool) (left : ℕ) → 0 < left → stuffing first 4 left ≡ filled left
unfolding stuffing filled
stuffing-fill true left h =
    let whole : (184 + 512 - left - (4 - 4)) % 256 ≡ (184 + 512 - left) % 256 = omega arith in
    elim (Bool-cases (leb 184 left)) [
      | inl e ↦ rw e refl
      | inr e ↦
          let small : (184 + 512 - left - (4 - 4)) % 256 ≡ 184 - left = ground arith in
          rw (e, small) (take-adaptation_buf_init 184 (184 - left) (omega arith) (omega arith))
    ]
stuffing-fill false left h = elim (Bool-cases (leb 184 left)) [
  | inl e ↦ rw e refl
  | inr e ↦ rw e (take-adaptation_buf_init 184 (184 - left) (omega arith) (omega arith))
]

pub length-filled : (left : ℕ) → length (filled left) ≡ 184 - left
unfolding filled
length-filled left = elim (Bool-cases (leb 184 left)) [
  | inl e ↦ rw e (ground arith)
  | inr e ↦ rw e (length-fill (184 - left))
]

abbrev pub head : Bool → ℕ → Bool → ℕ → List ℕ
head v k first left = ts_header v k first (not (leb 184 left)) ++ filled left

pub length-head :
    (v : Bool) (k : ℕ) (first : Bool) (left : ℕ) → length (head v k first left) ≡ 4 + (184 - left)
unfolding ts_header
length-head v k first left = omega (arith, length-filled left)

-- A round behind the first one.
pub ts_round_next :
    (p : MediaPacket) (header : List ℕ) (k : ℕ) (rest : List ℕ)
    → 0 < length rest
    → ts_round p header k false (record { left = length rest; rest = rest })
      ≡ done (
        head (is_video p.av_type) k false (length rest) ++ take (min 184 (length rest)) rest,
        record {
          left = length rest - min 184 (length rest);
          rest = drop (min 184 (length rest)) rest;
        },
      )
unfolding ts_round pcr_field data_room
ts_round_next p header k rest h =
    let left = length rest in
    let front = head (is_video p.av_type) k false left in
    let room : ((if leb 184 left then 184 else left) + 256 - 0) % 256 ≡ min 184 left =
      ground arith in
    let all : left - 0 ≡ left = omega arith in
    rw (stuffing-fill false left h, append-nil front, all)
      (put_data_lem front rest left _ (min 184 left)
        (omega (arith, length-head (is_video p.av_type) k false left)) room (omega arith)
        (omega arith))

abbrev pub with_clock : MediaPacket → Bool
with_clock p = is_video p.av_type && p.is_key_frame

-- The first round, of a packet that needs no clock.
pub ts_round_first :
    (p : MediaPacket) (header : List ℕ) (k : ℕ)
    → with_clock p ≡ false
    → length header ≤ 19
    → 0 < length p.bytes
    → (total n : ℕ) → length p.bytes + length header ≡ total
    → length header + n ≡ min 184 total
    → ts_round p header k true (record { left = total; rest = p.bytes })
      ≡ done (
        (head (is_video p.av_type) k true total ++ header) ++ take n p.bytes,
        record { left = total - length header - n; rest = drop n p.bytes },
      )
unfolding ts_round pcr_field data_room
ts_round_first p header k plain short h total n e en =
    let front = head (is_video p.av_type) k true total in
    let size : length front ≡ 4 + (184 - total) = length-head (is_video p.av_type) k true total in
    let whole : take (188 - length front) header ≡ header =
      take-all (188 - length front) header (omega arith) in
    let room : ((if leb 184 total then 184 - (4 - 4) else total) + 256 - length header) % 256 ≡ n =
      ground arith in
    rw (plain, stuffing-fill true total (omega arith), whole)
      (put_data_lem (front ++ header) p.bytes (total - length header) _ n
        (omega (arith, length-append front header)) room (omega arith) (omega arith))

abbrev pub clock : MediaPacket → List ℕ
clock p = 7 ∷ 0x50 ∷ write_pcr (p.dts * 90)

-- The first round, with the clock.
pub ts_round-clock :
    (p : MediaPacket) (header : List ℕ) (k : ℕ)
    → with_clock p ≡ true
    → length header ≤ 19
    → (total n : ℕ) → length p.bytes + length header ≡ total
    → 184 ≤ total
    → length header + n ≡ 176
    → ts_round p header k true (record { left = total; rest = p.bytes })
      ≡ done (
        ((ts_header (is_video p.av_type) k true true ++ clock p) ++ header) ++ take n p.bytes,
        record { left = total - length header - n; rest = drop n p.bytes },
      )
unfolding ts_round pcr_field data_room stuffing ts_header write_pcr
ts_round-clock p header k key short total n e long en =
    let full : leb 184 total ≡ true = ground arith in
    let front = ts_header (is_video p.av_type) k true true ++ clock p in
    let whole : take 176 header ≡ header = take-all 176 header (omega arith) in
    let room : (176 + 256 - length header) % 256 ≡ n = omega arith in
    rw (key, full, whole)
      (put_data_lem (front ++ header) p.bytes (total - length header) _ n
        (omega (arith, length-append front header)) room (omega arith) (omega arith))

-- The filling is read as the adaptation field that it is.
pub npos_lem :
    (v : Bool) (k : ℕ) (start : Bool) (left : ℕ) (xs : List ℕ)
    → (if not (leb 184 left)
        then adaptation_end (ts_header v k start (not (leb 184 left)) ++ (filled left ++ xs))
        else done 4)
      ≡ done (4 + length (filled left))
unfolding filled
npos_lem v k start left xs = elim (Bool-cases (leb 184 left)) [
  | inl e ↦ rw (e, filled) refl
  | inr e ↦
      rw
        (
          length-filled left,
          e,
          filled,
          adaptation_end-ts_header v k start true (184 - left) xs (ground arith),
        )
        refl
]
