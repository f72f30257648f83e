-- ===== src/Mpegts/Times.antt =====
-- src/format/mpegts: the header of a packet as the muxer writes it and the demuxer reads it.
use cpp_streamer.Base.{
  ℕ, suc, ◌+◌, ◌-◌, ◌*◌, ◌/◌, ◌%◌, ◌^◌, ◌<◌, ◌≡◌, refl, Bool, true, false, not, ◌&&◌, ◌||◌, List,
  [], ◌∷◌, ◌++◌, arith, ltb, leb, ◌==◌, if◌then◌else◌, length, Bool-cases, inl, inr, ◌⊎◌, ◌∙◌,
  append-nil,
}
use cpp_streamer.Base.Outcome.{Outcome, done, fault, ◌>>=◌}
use cpp_streamer.Utils.ByteStream.{byte_of}
use cpp_streamer.Mpegts.Pes.{write_ts, pes_header}
use cpp_streamer.Mpegts.PesReader.{PesResult, read_ts, pes_data, pes_parse, pes_times, pes_options}

-- The bits of the five bytes, put together again.
bits : ℕ → ℕ → ℕ
bits flag t =
    ((flag * 16 + t / 2 ^ 30 % 8 * 2 + 1) % 256 / 2 % 8 * 2 ^ 30
      + byte_of (t / 2 ^ 15 % 2 ^ 15 * 2 + 1) 0x100 * 2 ^ 22
      + byte_of (t / 2 ^ 15 % 2 ^ 15 * 2 + 1) 1 / 2 % 128 * 2 ^ 15
      + byte_of (t % 2 ^ 15 * 2 + 1) 0x100 * 2 ^ 7
      + byte_of (t % 2 ^ 15 * 2 + 1) 1 / 2 % 128)
    % 2 ^ 32

bits_lem : (flag t : ℕ) → bits flag t ≡ t % 2 ^ 32
unfolding bits
bits_lem flag t = omega arith

-- What the demuxer makes of a timestamp: an `int` with its sign repeated.
unfoldable pub widened : ℕ → ℕ
widened t = let low = t % 2 ^ 32 in if ltb low (2 ^ 31) then low else low + (2 ^ 64 - 2 ^ 32)

-- The muxer's reduction of a timestamp above 33 bits of ones.
unfoldable pub reduced : ℕ → ℕ
reduced t = if ltb 0x1ffffffff t then t - 0x1ffffffff else t

-- The highest of the 33 bits is set.
unfoldable pub overflows : ℕ → Bool
overflows t = leb 4 (t / 2 ^ 30 % 8)

unfoldable pub read_back : ℕ → Outcome ℕ
unfolding overflows widened reduced
read_back t = if overflows (reduced t) then fault else done (widened (reduced t))

high_bits : (flag t : ℕ) → (flag * 16 + t / 2 ^ 30 % 8 * 2 + 1) % 256 / 2 % 8 ≡ t / 2 ^ 30 % 8
high_bits flag t = omega arith

-- Behind nine bytes.
read_ts-write_ts :
    (a b c d e f g h i flag t : ℕ) (xs : List ℕ)
    → read_ts (a ∷ b ∷ c ∷ d ∷ e ∷ f ∷ g ∷ h ∷ i ∷ (write_ts flag t ++ xs)) 9 ≡ read_back t
unfolding read_ts write_ts read_back overflows widened reduced bits
read_ts-write_ts a b c d e f g h i flag t xs =
    let same : bits flag (if ltb 0x1ffffffff t then t - 0x1ffffffff else t)
        ≡ (if ltb 0x1ffffffff t then t - 0x1ffffffff else t) % 2 ^ 32 =
      bits_lem flag (if ltb 0x1ffffffff t then t - 0x1ffffffff else t) in
    let high = high_bits flag (if ltb 0x1ffffffff t then t - 0x1ffffffff else t) in
    rw (same, high) refl

read_ts-write_ts_second :
    (a b c d e f g h i flag t flag' t' : ℕ) (xs : List ℕ)
    → read_ts
        (a ∷ b ∷ c ∷ d ∷ e ∷ f ∷ g ∷ h ∷ i ∷ ((write_ts flag t ++ write_ts flag' t') ++ xs))
        14
      ≡ read_back t'
unfolding read_ts write_ts read_back overflows widened reduced bits
read_ts-write_ts_second a b c d e f g h i flag t flag' t' xs =
    let same : bits flag' (if ltb 0x1ffffffff t' then t' - 0x1ffffffff else t')
        ≡ (if ltb 0x1ffffffff t' then t' - 0x1ffffffff else t') % 2 ^ 32 =
      bits_lem flag' (if ltb 0x1ffffffff t' then t' - 0x1ffffffff else t') in
    let high = high_bits flag' (if ltb 0x1ffffffff t' then t' - 0x1ffffffff else t') in
    rw (same, high) refl

read_ts-write_ts_first :
    (a b c d e f g h i flag t flag' t' : ℕ) (xs : List ℕ)
    → read_ts (a ∷ b ∷ c ∷ d ∷ e ∷ f ∷ g ∷ h ∷ i ∷ ((write_ts flag t ++ write_ts flag' t') ++ xs)) 9
      ≡ read_back t
unfolding read_ts write_ts read_back overflows widened reduced bits
read_ts-write_ts_first a b c d e f g h i flag t flag' t' xs =
    let same : bits flag (if ltb 0x1ffffffff t then t - 0x1ffffffff else t)
        ≡ (if ltb 0x1ffffffff t then t - 0x1ffffffff else t) % 2 ^ 32 =
      bits_lem flag (if ltb 0x1ffffffff t then t - 0x1ffffffff else t) in
    let high = high_bits flag (if ltb 0x1ffffffff t then t - 0x1ffffffff else t) in
    rw (same, high) refl

-- Whether the header has the decoding time too.
abbrev pub both : Bool → ℕ → ℕ → Bool
both v dts pts = v && not (dts == pts)

abbrev pub header_len : Bool → ℕ → ℕ → ℕ
header_len v dts pts = if both v dts pts then 19 else 14

pub length-pes_header :
    (n : ℕ) (v : Bool) (dts pts : ℕ) → length (pes_header n v dts pts) ≡ header_len v dts pts
unfolding pes_header write_ts
length-pes_header n v dts pts = elim (Bool-cases (both v dts pts)) [
  | inl e ↦ rw (pes_header, e) refl
  | inr e ↦ rw (pes_header, e) refl
]

leb_zero : (n : ℕ) → leb 0 n ≡ true
leb_zero n = ground arith

-- No optional field is marked.
pes_options-pts : (p : List ℕ) → pes_options p 0x80 14 ≡ done 14
unfolding pes_options
pes_options-pts p = rw (leb_zero (length p)) refl

pes_options-both : (p : List ℕ) → pes_options p 0xc0 19 ≡ done 19
unfolding pes_options
pes_options-both p = rw (leb_zero (length p)) refl

-- The nine bytes in front of the times.
module _ (id hi lo n : ℕ) (times : List ℕ) where
  abbrev front : ℕ → List ℕ
  front flags = 0 ∷ 0 ∷ 1 ∷ id ∷ hi ∷ lo ∷ 0x80 ∷ flags ∷ n ∷ times

  pes_parse_front :
      (flags : ℕ)
      → (id ≡ 0xe0) ⊎ (id ≡ 0xc0)
      → pes_parse (front flags) ≡ pes_times (front flags) flags
  unfolding pes_parse
  pes_parse_front flags (inl e) =
      let held : leb 6 (suc (suc (suc (suc (suc (suc (suc (suc (suc (length times)))))))))) ≡ true =
        ground arith in
      rw (e, held) refl
  pes_parse_front flags (inr e) =
      let held : leb 6 (suc (suc (suc (suc (suc (suc (suc (suc (suc (length times)))))))))) ≡ true =
        ground arith in
      rw (e, held) refl

pes_parse_both :
    (id hi lo n dts pts : ℕ) (xs : List ℕ)
    → (id ≡ 0xe0) ⊎ (id ≡ 0xc0)
    → pes_parse (front id hi lo n ((write_ts 3 pts ++ write_ts 1 dts) ++ xs) 0xc0)
      ≡ (read_back pts >>= (λ p. read_back dts >>= (λ d. done (pes_data 19 d p))))
unfolding pes_times
pes_parse_both id hi lo n dts pts xs e =
    let times = (write_ts 3 pts ++ write_ts 1 dts) ++ xs in
    pes_parse_front id hi lo n times 0xc0 e
    ∙ rw
        (
          pes_times,
          read_ts-write_ts_first 0 0 1 id hi lo 0x80 0xc0 n 3 pts 1 dts xs,
          read_ts-write_ts_second 0 0 1 id hi lo 0x80 0xc0 n 3 pts 1 dts xs,
          pes_options-both (front id hi lo n times 0xc0),
        )
        refl

pes_parse_pts :
    (id hi lo n pts : ℕ) (xs : List ℕ)
    → (id ≡ 0xe0) ⊎ (id ≡ 0xc0)
    → pes_parse (front id hi lo n ((write_ts 2 pts ++ []) ++ xs) 0x80)
      ≡ (read_back pts >>= (λ p. done (pes_data 14 0 p)))
unfolding pes_times
pes_parse_pts id hi lo n pts xs e =
    let times = (write_ts 2 pts ++ []) ++ xs in
    pes_parse_front id hi lo n times 0x80 e
    ∙ rw
        (
          pes_times,
          append-nil (write_ts 2 pts),
          read_ts-write_ts 0 0 1 id hi lo 0x80 0x80 n 2 pts xs,
          pes_options-pts (front id hi lo n (write_ts 2 pts ++ xs) 0x80),
        )
        refl

abbrev stream_id : Bool → ℕ
stream_id v = if v then 0xe0 else 0xc0

stream_id_cases : (v : Bool) → (stream_id v ≡ 0xe0) ⊎ (stream_id v ≡ 0xc0)
stream_id_cases true = inl refl
stream_id_cases false = inr refl

pes_header_read :
    (n : ℕ) (v : Bool) (dts pts : ℕ) (xs : List ℕ)
    → pes_parse (pes_header n v dts pts ++ xs) ≡ (
        if both v dts pts
        then read_back pts >>= (λ p. read_back dts >>= (λ d. done (pes_data 19 d p)))
        else read_back pts >>= (λ p. done (pes_data 14 0 p)))
unfolding pes_header write_ts
pes_header_read n v dts pts xs = elim (Bool-cases (both v dts pts)) [
  | inl e ↦ rw (pes_header, e) (pes_parse_both (stream_id v) _ _ 10 dts pts xs (stream_id_cases v))
  | inr e ↦ rw (pes_header, e) (pes_parse_pts (stream_id v) _ _ 5 pts xs (stream_id_cases v))
]

-- What PesParse finds in a header, where no shift overflows.
abbrev pub found : Bool → ℕ → ℕ → PesResult
found v dts pts =
    pes_data (header_len v dts pts) (if both v dts pts then widened (reduced dts) else 0)
      (widened (reduced pts))

read_backs :
    (two : Bool) (dts pts : ℕ)
    → (if two
        then read_back pts >>= (λ p. read_back dts >>= (λ d. done (pes_data 19 d p)))
        else read_back pts >>= (λ p. done (pes_data 14 0 p)))
      ≡ (if overflows (reduced pts) || (two && overflows (reduced dts))
          then fault
          else done (
              pes_data
                (if two then 19 else 14)
                (if two then widened (reduced dts) else 0)
                (widened (reduced pts))))
unfolding read_back
read_backs two dts pts = elim (Bool-cases (overflows (reduced pts))) [
  | inl p ↦ rw (read_back, p) (elim (Bool-cases two) [ inl e ↦ rw e refl | inr e ↦ rw e refl ])
  | inr p ↦ elim (Bool-cases (overflows (reduced dts))) [
    | inl d ↦ rw (read_back, p, d) (elim (Bool-cases two) [ inl e ↦ rw e refl | inr e ↦ rw e refl ])
    | inr d ↦ rw (read_back, p, d) (elim (Bool-cases two) [ inl e ↦ rw e refl | inr e ↦ rw e refl ])
  ]
]

-- PesParse on the header that WritePesHeader writes for times that are not negative, with five or ten
-- bytes of them. Of a time above 2^33 - 1 that number is subtracted once. If bit 32 of what is then in the
-- header is set in one of its times, the int that they are put together in overflows. If not, the length
-- of the header is found, and each time is read as its lowest 32 bits, as a signed int widened to 64 bits:
-- from 2^31 on it is not the time that was written. A decoding time that the header does not have is 0.
pub pes_parse-pes_header :
    (n : ℕ) (v : Bool) (dts pts : ℕ) (xs : List ℕ)
    → pes_parse (pes_header n v dts pts ++ xs) ≡ (
        if overflows (reduced pts) || (both v dts pts && overflows (reduced dts))
        then fault
        else done (found v dts pts))
pes_parse-pes_header n v dts pts xs =
    pes_header_read n v dts pts xs ∙ read_backs (both v dts pts) dts pts

overflows_small : (t : ℕ) → t < 2 ^ 31 → overflows (reduced t) ≡ false
unfolding overflows reduced
overflows_small t h = ground arith

-- Times below 2^31.
pub pes_header_small :
    (n : ℕ) (v : Bool) (dts pts : ℕ) (xs : List ℕ)
    → dts < 2 ^ 31
    → pts < 2 ^ 31
    → pes_parse (pes_header n v dts pts ++ xs) ≡ done (found v dts pts)
pes_header_small n v dts pts xs hd hp =
    pes_parse-pes_header n v dts pts xs
    ∙ rw (overflows_small pts hp, overflows_small dts hd)
        (elim (Bool-cases (both v dts pts)) [ inl e ↦ rw e refl | inr e ↦ rw e refl ])

-- A time below 2^31 is read as it was written.
pub widened_small : (t : ℕ) → t < 2 ^ 31 → widened (reduced t) ≡ t
unfolding widened reduced
widened_small t h =
    let low : ltb 0x1ffffffff t ≡ false = ground arith in
    let small : ltb t (2 ^ 31) ≡ true = ground arith in
    let whole : t % 2 ^ 32 ≡ t = omega arith in rw (low, whole, small) refl
