-- ===== src/Mpegts/Units.antt =====
-- src/format/mpegts: a unit that the muxer builds, as the demuxer takes it apart.
use cpp_streamer.Base.{
  ℕ, zero, suc, ◌+◌, ◌-◌, ◌/◌, ◌%◌, ◌≤◌, ◌<◌, ◌≡◌, refl, ap, ◌∙◌, Bool, true, false, Option, List,
  [], ◌∷◌, ◌++◌, arith, ltb, leb, ◌==◌, if◌then◌else◌, length, take, length-append, take-append,
  drop-append, Bool-cases, inl, inr,
}
use cpp_streamer.Base.Outcome.{Outcome, done, ◌>>=◌}
use cpp_streamer.Mpegts.Pes.{pid_of, ts_header, ones, adaptation_buf_init, write_pcr}
use cpp_streamer.Mpegts.State.{MpegtsDemux, StreamPidInfo, insert_into_databuf}
use cpp_streamer.Mpegts.PesReader.{adaptation_end}
use cpp_streamer.Mpegts.Demux.{streams_loop, start_packet, go_on, decode_payload, decode_unit}
use cpp_streamer.Mpegts.PsiReader.{is_pmt}

-- The bytes of an adaptation field that fills `r` bytes.
unfoldable pub fill : ℕ → List ℕ
fill zero = []
fill (suc zero) = 0 ∷ []
fill (suc (suc k)) = suc k ∷ 0 ∷ ones k

take-ones : (k n : ℕ) → k ≤ n → take k (ones n) ≡ ones k
unfolding ones
take-ones zero n h = refl
take-ones (suc k) zero h = absurd (omega arith)
take-ones (suc k) (suc n) h = ap (◌∷◌ 0xff) (take-ones k n (omega arith))

length-ones : (k : ℕ) → length (ones k) ≡ k
unfolding ones
length-ones zero = refl
length-ones (suc k) = ap suc (length-ones k)

pub take-adaptation_buf_init :
    (size r : ℕ) → r ≤ size → size ≤ 184 → take r (adaptation_buf_init size r) ≡ fill r
unfolding adaptation_buf_init fill
take-adaptation_buf_init size zero h small = refl
take-adaptation_buf_init size (suc zero) h small = refl
take-adaptation_buf_init size (suc (suc k)) h small =
    let more : (suc (suc k) == 1) ≡ false = ground arith in
    let byte : (suc (suc k) + 255) % 256 ≡ suc k = omega arith in
    rw (more, byte, take-ones k (size - 2) (omega arith)) refl

pub length-fill : (r : ℕ) → length (fill r) ≡ r
unfolding fill
length-fill zero = refl
length-fill (suc zero) = refl
length-fill (suc (suc k)) = ap (λ n. suc (suc n)) (length-ones k)

adaptation_end-fill :
    (a b c e r : ℕ) (xs : List ℕ)
    → 0 < r
    → adaptation_end (a ∷ b ∷ c ∷ e ∷ (fill r ++ xs)) ≡ done (4 + r)
unfolding adaptation_end fill
adaptation_end-fill a b c e zero xs h = absurd (omega arith)
adaptation_end-fill a b c e (suc zero) xs h = refl
adaptation_end-fill a b c e (suc (suc k)) xs h =
    let more : (suc k == 0) ≡ false = ground arith in rw more (ap done (omega arith))

adaptation_end-pcr :
    (a b c e t : ℕ) (xs : List ℕ)
    → adaptation_end (a ∷ b ∷ c ∷ e ∷ ((7 ∷ 0x50 ∷ write_pcr t) ++ xs)) ≡ done 12
unfolding adaptation_end write_pcr
adaptation_end-pcr a b c e t xs = refl

pub length-ts_header :
    (v : Bool) (k : ℕ) (first adaptation : Bool) (xs : List ℕ)
    → length (ts_header v k first adaptation ++ xs) ≡ 4 + length xs
unfolding ts_header
length-ts_header v k first adaptation xs = omega arith

-- The same behind the header of a unit.
pub adaptation_end-ts_header :
    (v : Bool) (k : ℕ) (first adaptation : Bool) (r : ℕ) (xs : List ℕ)
    → 0 < r
    → adaptation_end (ts_header v k first adaptation ++ (fill r ++ xs)) ≡ done (4 + r)
unfolding ts_header
adaptation_end-ts_header v k first adaptation r xs h = adaptation_end-fill _ _ _ _ r xs h

pub adaptation_end-clock :
    (v : Bool) (k : ℕ) (first adaptation : Bool) (t : ℕ) (xs : List ℕ)
    → adaptation_end (ts_header v k first adaptation ++ ((7 ∷ 0x50 ∷ write_pcr t) ++ xs)) ≡ done 12
unfolding ts_header
adaptation_end-clock v k first adaptation t xs = adaptation_end-pcr _ _ _ _ t xs

control :
    (adaptation : Bool) (k : ℕ)
    → (0x10 + (if adaptation then 0x20 else 0) + k % 16) / 16 % 4 ≡ (if adaptation then 3 else 1)
control true k = omega arith
control false k = omega arith

-- How often the tables name a stream's number.
unfoldable pub times : ℕ → List StreamPidInfo → ℕ
times pid [] = 0
times pid (s ∷ ss) = (if s.elementary_pid == pid then 1 else 0) + times pid ss

-- The tables have the number once, as a stream.
pub record Carries (pid : ℕ) (d : MpegtsDemux) : Type 0 where
  pub not_pmt : is_pmt pid d.pid_vec ≡ false
  pub once : times pid d.stream_pid_vec ≡ 1

module _ (opus_frames : List ℕ → Option (List (List ℕ))) where
  pub decode_unit-ts_header :
      (v : Bool) (k : ℕ) (first adaptation : Bool) (xs : List ℕ) (d : MpegtsDemux)
      → decode_unit opus_frames (ts_header v k first adaptation ++ xs) d ≡ (
          (if adaptation then adaptation_end (ts_header v k first adaptation ++ xs) else done 4)
          >>= (λ npos.
              decode_payload opus_frames first
                (pid_of v)
                npos
                (ts_header v k first adaptation ++ xs)
                d))
  unfolding decode_unit ts_header
  decode_unit-ts_header true k true true xs d = rw (control true k) refl
  decode_unit-ts_header true k true false xs d = rw (control false k) refl
  decode_unit-ts_header true k false true xs d = rw (control true k) refl
  decode_unit-ts_header true k false false xs d = rw (control false k) refl
  decode_unit-ts_header false k true true xs d = rw (control true k) refl
  decode_unit-ts_header false k true false xs d = rw (control false k) refl
  decode_unit-ts_header false k false true xs d = rw (control true k) refl
  decode_unit-ts_header false k false false xs d = rw (control false k) refl

  -- What the demuxer does with the unit, once.
  abbrev pub step : Bool → ℕ → ℕ → List ℕ → MpegtsDemux → Outcome (Bool × MpegtsDemux)
  step start pid npos b d =
      if start then start_packet opus_frames pid npos b d else go_on opus_frames pid npos b d

  streams_loop_none :
      (ss : List StreamPidInfo) (start : Bool) (pid npos : ℕ) (b : List ℕ) (d : MpegtsDemux)
      → times pid ss ≡ 0
      → streams_loop opus_frames ss start pid npos b d ≡ done (true, d)
  unfolding streams_loop times
  streams_loop_none [] start pid npos b d h = refl
  streams_loop_none (s ∷ ss) start pid npos b d h =
      let differs : (s.elementary_pid == pid) ≡ false = ground arith in
      rw (streams_loop, differs) (streams_loop_none ss start pid npos b d (ground arith))

  -- The code is that of the one step.
  streams_loop_once :
      (ok : Bool) (ss : List StreamPidInfo) (start : Bool) (pid npos : ℕ) (b : List ℕ)
      (d d' : MpegtsDemux)
      → times pid ss ≡ 1
      → step start pid npos b d ≡ done (ok, d')
      → streams_loop opus_frames ss start pid npos b d ≡ done (ok, d')
  unfolding streams_loop times
  streams_loop_once ok [] start pid npos b d d' h e = absurd (omega arith)
  streams_loop_once ok (s ∷ ss) start pid npos b d d' h e =
      elim (Bool-cases (s.elementary_pid == pid)) [
        | inl same ↦ rw (streams_loop, same, e) (last ok (ground arith))
        | inr differs ↦
            rw (streams_loop, differs)
              (streams_loop_once ok ss start pid npos b d d' (ground arith) e)
      ]
    where
      last :
          (c : Bool)
          → times pid ss ≡ 0
          → (elim c as (λ x. Outcome (Bool × MpegtsDemux)) [
            | false ↦ done (false, d')
            | true ↦ streams_loop opus_frames ss start pid npos b d'
          ])
            ≡ done (c, d')
      last true z = streams_loop_none ss start pid npos b d' z
      last false z = refl

  pub decode_payload_lem :
      (ok v start : Bool) (npos : ℕ) (b : List ℕ) (d d' : MpegtsDemux)
      → Carries (pid_of v) d
      → step start (pid_of v) npos b d ≡ done (ok, d')
      → decode_payload opus_frames start (pid_of v) npos b d ≡ done (ok, d')
  unfolding decode_payload
  decode_payload_lem ok true start npos b d d' c e =
      rw (c.not_pmt) (streams_loop_once ok d.stream_pid_vec start 0x100 npos b d d' c.once e)
  decode_payload_lem ok false start npos b d d' c e =
      rw (c.not_pmt) (streams_loop_once ok d.stream_pid_vec start 0x101 npos b d d' c.once e)

  -- A unit in the middle of a packet.
  pub go_on_lem :
      (pid npos : ℕ) (front more behind : List ℕ) (d : MpegtsDemux)
      → length front ≡ npos
      → npos + length more ≡ 188
      → go_on opus_frames pid npos (front ++ (more ++ behind)) d
        ≡ done (true, insert_into_databuf more pid d)
  unfolding go_on
  go_on_lem pid npos front more behind d h e =
      let inside : ltb 188 npos ≡ false = ground arith in
      let held : leb 188 (length (front ++ (more ++ behind))) ≡ true =
        ground (arith, length-append front (more ++ behind), length-append more behind) in
      rw
        (
          go_on,
          inside,
          held,
          drop-append npos front (more ++ behind) h,
          take-append (188 - npos) more behind (omega arith),
        )
        refl

  pub decode_unit_lem :
      (ok v : Bool) (k : ℕ) (start adaptation : Bool) (mid xs : List ℕ) (d d' : MpegtsDemux)
      → (if adaptation
          then adaptation_end (ts_header v k start adaptation ++ (mid ++ xs))
          else done 4)
        ≡ done (4 + length mid)
      → Carries (pid_of v) d
      → step start (pid_of v) (4 + length mid) (ts_header v k start adaptation ++ (mid ++ xs)) d
        ≡ done (ok, d')
      → decode_unit opus_frames (ts_header v k start adaptation ++ (mid ++ xs)) d ≡ done (ok, d')
  decode_unit_lem ok v k start adaptation mid xs d d' e c s =
      decode_unit-ts_header v k start adaptation (mid ++ xs) d
      ∙ rw e (
          decode_payload_lem ok v start (4 + length mid)
            (ts_header v k start adaptation ++ (mid ++ xs)) d d' c s)
