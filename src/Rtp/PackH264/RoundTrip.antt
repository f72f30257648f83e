-- ===== src/Rtp/PackH264/RoundTrip.antt =====
-- src/net/rtprtcp/rtp_h264_pack.cpp against src/net/webrtc/pack_handle_h264.cpp: a unit in fragments.
use cpp_streamer.Base.{
  ℕ, zero, suc, ◌+◌, ◌-◌, ◌<◌, ◌≤◌, ◌≡◌, refl, ap, sym, ◌∙◌, true, false, not, ◌&&◌, List, [], ◌∷◌,
  ◌++◌, arith, ltb, leb, ◌==◌, length, take, drop, append_assoc, take-append-drop, Bool-cases, inl,
  inr, take-all, length-drop, IsByte,
}
use mathlib.Core.Path.{subst}
use cpp_streamer.Base.Outcome.{Outcome, done, ◌>>=◌}
use cpp_streamer.Rtp.PackH264.{RtpPacketInfo, PackHandleH264, input_rtp_packet}
use cpp_streamer.Rtp.PackH264.Sender.{
  Fragment, split_loop, split_nalu, fragments, generate_fu_a_packets,
}
use cpp_streamer.Rtp.PackH264.Steps.{
  fragment, arrival, waiting, unit, Gathers, received, mid_step, first_step, first_Gathers,
  mid_Gathers, finish_lem,
}

-- Fragments that come one after the other: by its number, when each arrived, and what the clock says
-- when it is taken.
unfoldable pub feed :
    (ℕ → ℕ) → ℕ → (ℕ → ℕ) → ℕ → List Fragment → PackHandleH264 → Outcome PackHandleH264
feed now ts local seq [] h = done h
feed now ts local seq (f ∷ fs) h =
    input_rtp_packet (now seq) (arrival ts (local seq) seq f.payload) h
    >>= feed now ts local (seq + 1) fs

-- Sizes that a packet has room for, and that add up to a length.
Fill : ℕ → List ℕ → ℕ → Type 0
Fill ext_len [] n = n ≡ 0
Fill ext_len (size ∷ sizes) n =
    (size + 14 + ext_len ≤ 1500) × (size ≤ n) × Fill ext_len sizes (n - size)

split_loop-Fill :
    (ext_len fuel n : ℕ) → ext_len ≤ 286 → n ≤ fuel → Fill ext_len (split_loop fuel n) n
unfolding split_loop Fill
split_loop-Fill ext_len zero n he h = omega arith
split_loop-Fill ext_len (suc fuel) n he h = elim (Bool-cases (ltb 1200 n)) [
  | inl more ↦
      let rest = split_loop-Fill ext_len fuel (n - 1200) he (omega arith) in
      rw more (omega arith, ground arith, rest)
  | inr less ↦ elim (Bool-cases (ltb 0 n)) [
    | inl some_left ↦ rw (less, some_left) (ground arith, omega arith, omega arith)
    | inr none_left ↦ rw (less, none_left) (ground arith)
  ]
]

not_last : (sizes : List ℕ) → (suc (length sizes) == 0) ≡ false
not_last sizes = ground arith

run :
    (now local : ℕ → ℕ) (ts ext_len header : ℕ) (sizes : List ℕ) (size last : ℕ)
    (rest body : List ℕ) (f : RtpPacketInfo) (q : List RtpPacketInfo) (h : PackHandleH264)
    → ((i : ℕ) → now i < f.local_ms + 600)
    → Fill ext_len (size ∷ sizes) (length rest)
    → Gathers ts (f ∷ q) (unit header body)
    → (fs : List Fragment) × (fragments ext_len header false (size ∷ sizes) rest ≡ done fs)
      × (length fs ≡ suc (length sizes))
      × (feed now ts local (last + 1) fs (waiting h last (f ∷ q))
          ≡ done (received h (last + length fs) ts header (body ++ rest)))
unfolding fragments feed Fill
run now local ts ext_len header [] size last rest body f q h fresh fill g =
    let room : leb (size + 2 + 12 + ext_len) 1500 ≡ true = ground arith in
    let inside : leb size (length rest) ≡ true = ground arith in
    let whole : take size rest ≡ rest = take-all size rest (omega arith) in
    (
      record { marker = true; payload = fragment header 0 64 rest } ∷ [],
      rw (room, inside, whole) refl,
      refl,
      rw (finish_lem (now (last + 1)) ts (local (last + 1)) last header rest body (f ∷ q) h g) refl,
    )
run now local ts ext_len header (s ∷ sizes) size last rest body f q h fresh fill g =
    let room : leb (size + 2 + 12 + ext_len) 1500 ≡ true = ground arith in
    let inside : leb size (length rest) ≡ true = ground arith in
    let chunk = take size rest in
    let p = arrival ts (local (last + 1)) (last + 1) (fragment header 0 0 chunk) in
    let (fs, made, count, fed) =
      run now local ts ext_len header sizes s (last + 1) (drop size rest) (body ++ chunk) f
        (q ++ (p ∷ [])) h fresh
        (subst (Fill ext_len (s ∷ sizes)) (sym (length-drop size rest)) fill.2)
        (mid_Gathers ts (local (last + 1)) (last + 1) header chunk (unit header body) (f ∷ q) g) in
    let more : (suc (length sizes) == 0) ≡ false = not_last sizes in
    let place : last + 1 + length fs ≡ last + suc (length fs) = omega arith in
    let bytes : (body ++ chunk) ++ drop size rest ≡ body ++ rest =
      append_assoc body chunk (drop size rest) ∙ ap (◌++◌ body) (take-append-drop size rest) in
    (
      record { marker = false; payload = fragment header 0 0 chunk } ∷ fs,
      rw (room, inside, more, made) refl,
      ap suc count,
      rw
            (mid_step (now (last + 1)) ts (local (last + 1)) last header chunk f q h
              (fresh (last + 1)))
            fed
          ∙ ap (λ n. done (received h n ts header ((body ++ chunk) ++ drop size rest))) place
          ∙ ap (λ b. done (received h (last + suc (length fs)) ts header b)) bytes,
    )

split_some :
    (fuel n : ℕ)
    → 0 < n
    → n ≤ fuel
    → (size : ℕ) × (sizes : List ℕ) × (split_loop fuel n ≡ size ∷ sizes)
unfolding split_loop
split_some zero n pos h = absurd (omega arith)
split_some (suc fuel) n pos h = elim (Bool-cases (ltb 1200 n)) [
  | inl more ↦ (1200, split_loop fuel (n - 1200), rw more refl)
  | inr less ↦ let left : ltb 0 n ≡ true = ground arith in (n, [], rw (less, left) refl)
]

split_two :
    (n : ℕ) → 1200 < n → (size : ℕ) × (sizes : List ℕ) × (split_nalu n ≡ 1200 ∷ (size ∷ sizes))
unfolding split_nalu split_loop
split_two zero h = absurd (omega arith)
split_two (suc n) h =
    let more : ltb 1200 (suc n) ≡ true = ground arith in
    let (size, sizes, e) = split_some n (suc n - 1200) (omega arith) (omega arith) in
    (size, sizes, rw more (ap (◌∷◌ 1200) e))

first_run :
    (now local : ℕ → ℕ) (ts seq ext_len header size : ℕ) (sizes rest : List ℕ) (h : PackHandleH264)
    → IsByte header
    → Fill ext_len (1200 ∷ (size ∷ sizes)) (length rest)
    → ((i : ℕ) → now i < local seq + 600)
    → (h.init_flag && not (h.last_extend_seq + 1 == seq)) ≡ false
    → h.end_flag ≡ false
    → (fs : List Fragment) × (fragments ext_len header true (1200 ∷ (size ∷ sizes)) rest ≡ done fs)
      × (2 ≤ length fs)
      × (feed now ts local seq fs h ≡ done (received h (seq + (length fs - 1)) ts header rest))
unfolding fragments feed Fill
first_run now local ts seq ext_len header size sizes rest h byte fill fresh next idle =
    let room : leb (1200 + 2 + 12 + ext_len) 1500 ≡ true = ground arith in
    let inside : leb 1200 (length rest) ≡ true = ground arith in
    let chunk = take 1200 rest in
    let p = arrival ts (local seq) seq (fragment header 128 0 chunk) in
    let (fs, made, count, fed) =
      run now local ts ext_len header sizes size seq (drop 1200 rest) chunk p [] h fresh
        (subst (Fill ext_len (size ∷ sizes)) (sym (length-drop 1200 rest)) fill.2)
        (first_Gathers ts (local seq) seq header chunk byte) in
    let more : (suc (length sizes) == 0) ≡ false = not_last sizes in
    let place : seq + length fs ≡ seq + (suc (length fs) - 1) = omega arith in
    (
      record { marker = false; payload = fragment header 128 0 chunk } ∷ fs,
      rw (room, inside, more, made) refl,
      omega arith,
      rw (first_step (now seq) ts (local seq) seq header chunk h next idle (fresh seq)) fed
          ∙ ap (λ b. done (received h (seq + length fs) ts header b)) (take-append-drop 1200 rest)
          ∙ ap (λ n. done (received h n ts header rest)) place,
    )

-- GenerateFuAPackets for a unit with more than 1200 bytes behind its first, and at most 286 bytes of header
-- extension: it returns two packets or more, each with room for its payload. A receiver that is at its
-- start or expects the number of the first, and has no end of a unit pending, takes them one after the
-- other, each with an arrival time of its own, as long as the clock is less than 600 ms past the arrival
-- of the first whenever one is taken. It outputs one packet of video: the start code and the unit,
-- byte by byte, with the time stamp that the packets share. Nothing of them stays in its queue, and no
-- loss is reported, whatever was in the queue before.
pub feed-generate :
    (now local : ℕ → ℕ) (ts seq ext_len header : ℕ) (rest : List ℕ) (h : PackHandleH264)
    → IsByte header
    → 1200 < length rest
    → ext_len ≤ 286
    → ((i : ℕ) → now i < local seq + 600)
    → (h.init_flag && not (h.last_extend_seq + 1 == seq)) ≡ false
    → h.end_flag ≡ false
    → (fs : List Fragment) × (generate_fu_a_packets ext_len (header ∷ rest) ≡ done fs)
      × (2 ≤ length fs)
      × (feed now ts local seq fs h ≡ done (received h (seq + (length fs - 1)) ts header rest))
unfolding generate_fu_a_packets split_nalu
feed-generate now local ts seq ext_len header rest h byte long he fresh next idle =
    let (size, sizes, split) = split_two (length rest) long in
    let (fs, made, two, fed) =
      first_run now local ts seq ext_len header size sizes rest h byte
        (subst (λ s. Fill ext_len s (length rest)) split
          (split_loop-Fill ext_len (length rest) (length rest) he (omega arith)))
        fresh next idle in
    (fs, ap (λ s. fragments ext_len header true s rest) split ∙ made, two, fed)
