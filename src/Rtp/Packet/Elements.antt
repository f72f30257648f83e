-- ===== src/Rtp/Packet/Elements.antt =====
-- src/net/rtprtcp/rtp_packet.cpp, ParseOnebyteExt and ParseTwobytesExt: the loops end, and what they
-- store lies inside the extension.
use cpp_streamer.Base.{ℕ, zero, suc, ◌+◌, ◌*◌, ◌/◌, ◌%◌, ◌^◌, ◌≤◌, ◌<◌, bit_and}
use cpp_streamer.Base.{◌≡◌, refl, sym, ap, ◌∙◌, inl, inr, Bool, true, false}
use cpp_streamer.Base.{some, List, [], ◌∷◌, arith}
use cpp_streamer.Base.{ltb, if◌then◌else◌, Bool-cases}
use cpp_streamer.Base.{length, get_elem?, take, drop, All, length-drop}
use cpp_streamer.Base.{drop-drop}
use cpp_streamer.Base.Outcome.{Outcome, done, throws, fault}
use cpp_streamer.Utils.ByteStream.{read2_bytes}
use cpp_streamer.Rtp.Packet.{
  Step, stop, bad, next, skip_zeros, onebyte_step, twobytes_step, ext_loop, parse_elements,
}
use cpp_streamer.Rtp.Packet.{get_ext_length, after_zeros}

-- An element stored at an offset of `pre`, the bytes up to the extension's end, lies inside of them.
abbrev pub OnebyteFits : List ℕ → ℕ × ℕ → Type 0
OnebyteFits pre (id, p) =
    (b : ℕ) × (get_elem? pre p ≡ some b) × (p + 1 + (bit_and b 0x0f + 1) ≤ length pre)

abbrev pub TwobytesFits : List ℕ → ℕ × ℕ → Type 0
TwobytesFits pre (id, p) =
    (len : ℕ) × (get_elem? pre (p + 1) ≡ some len) × (p + 2 + len ≤ length pre)

-- No undefined behaviour, and `P` of what is returned.
abbrev pub Safe {ℓ} : {A : Type ℓ} → (A → Type 0) → Outcome A → Type 0
Safe P (done a) = P a
Safe P throws = Unit
Safe P fault = ⊥

module _ (pre : List ℕ) where
  drop-cons :
      (xs : List ℕ) (p q b : ℕ) (rest : List ℕ)
      → drop p xs ≡ b ∷ rest
      → p + 1 ≡ q
      → (drop q xs ≡ rest) × (get_elem? xs p ≡ some b) × (p + 1 + length rest ≡ length xs)
  drop-cons [] zero q b rest h e = ground arith
  drop-cons xs p zero b rest h e = absurd (omega arith)
  drop-cons (x ∷ xs) zero (suc q) b rest h e = let z : q ≡ 0 = omega arith in rw z (ground arith)
  drop-cons [] (suc p) (suc q) b rest h e = ground arith
  drop-cons (x ∷ xs) (suc p) (suc q) b rest h e =
      let (d, g, l) = drop-cons xs p q b rest h (omega arith) in (d, g, omega arith)

  drop_more : (p n k : ℕ) (rest : List ℕ) → drop p pre ≡ rest → p + n ≡ k → drop k pre ≡ drop n rest
  drop_more p n k rest h e = sym (drop-drop p n k pre e) ∙ ap (drop n) h

  abbrev Reaches : ℕ × List ℕ → Type 0
  Reaches (p, rest) = drop p pre ≡ rest

  skip_zeros-Reaches :
      (p : ℕ) (rest : List ℕ)
      → drop p pre ≡ rest
      → Reaches (skip_zeros p rest) × (length (skip_zeros p rest).1 ≤ length rest)
  unfolding skip_zeros
  skip_zeros-Reaches p [] h = (h, omega arith)
  skip_zeros-Reaches p (b ∷ rest) h =
      let (d, g, l) = drop-cons pre p (p + 1) b rest h refl in
      let (r, s) = skip_zeros-Reaches (p + 1) rest d in ground arith

  -- A round keeps its place in `pre` and `P` of what it stores, and gets closer to the end.
  abbrev RoundSafe : (ℕ × ℕ → Type 0) → List ℕ → Step → Type 0
  RoundSafe P rest stop = Unit
  RoundSafe P rest bad = Unit
  RoundSafe P rest (next p' rest' m') =
      (drop p' pre ≡ rest') × All P m' × (length rest' < length rest)

  if-RoundSafe :
      (P : ℕ × ℕ → Type 0) (before : List ℕ) (c : Bool) (s t : Step)
      → RoundSafe P before s
      → RoundSafe P before t
      → RoundSafe P before (if c then s else t)
  if-RoundSafe P before true s t a b = a
  if-RoundSafe P before false s t a b = b

  after_zeros-RoundSafe :
      (P : ℕ × ℕ → Type 0) (before : List ℕ) (p : ℕ) (rest : List ℕ) (m : List (ℕ × ℕ))
      → drop p pre ≡ rest
      → All P m
      → length rest < length before
      → RoundSafe P before (after_zeros (skip_zeros p rest) m)
  after_zeros-RoundSafe P before p rest m h a l =
      let (r, s) = skip_zeros-Reaches p rest h in (r, a, omega arith)

  pub onebyte_step-RoundSafe :
      (p : ℕ) (rest : List ℕ) (m : List (ℕ × ℕ))
      → drop p pre ≡ rest
      → All (OnebyteFits pre) m
      → RoundSafe (OnebyteFits pre) rest (onebyte_step p rest m)
  unfolding onebyte_step
  onebyte_step-RoundSafe p [] m h a = tt
  onebyte_step-RoundSafe p (b ∷ rest) m h a =
      let (d, g, l) = drop-cons pre p (p + 1) b rest h refl in
      let len = bit_and b 0x0f + 1 in
      let skipped =
        after_zeros-RoundSafe (OnebyteFits pre) (b ∷ rest) (p + 1) rest m d a (omega arith) in
      elim (Bool-cases (ltb (length rest) len)) [
        | inl short ↦ rw short (ground arith)
        | inr enough ↦
            let stored =
              after_zeros-RoundSafe (OnebyteFits pre) (b ∷ rest) (p + 1 + len) (drop len rest)
                ((bit_and b 0xf0 / 16, p) ∷ m) (drop_more (p + 1) len (p + 1 + len) rest d refl)
                ((b, g, ground arith), a) (omega (arith, length-drop len rest)) in
            rw enough (ground arith)
      ]

  pub twobytes_step-RoundSafe :
      (p : ℕ) (rest : List ℕ) (m : List (ℕ × ℕ))
      → drop p pre ≡ rest
      → All (TwobytesFits pre) m
      → RoundSafe (TwobytesFits pre) rest (twobytes_step p rest m)
  unfolding twobytes_step
  twobytes_step-RoundSafe p [] m h a = tt
  twobytes_step-RoundSafe p (id ∷ []) m h a = tt
  twobytes_step-RoundSafe p (id ∷ len ∷ rest) m h a =
      let (d, g, l) = drop-cons pre p (p + 1) id (len ∷ rest) h refl in
      let (d', g', l') = drop-cons pre (p + 1) (p + 2) len rest d (omega arith) in
      let skipped =
        after_zeros-RoundSafe (TwobytesFits pre) (id ∷ len ∷ rest) (p + 1) (len ∷ rest) m d a
          (omega arith) in
      elim (Bool-cases (ltb (length rest) len)) [
        | inl short ↦ rw short (ground arith)
        | inr enough ↦
            let stored =
              after_zeros-RoundSafe (TwobytesFits pre) (id ∷ len ∷ rest) (p + 2 + len)
                (drop len rest) ((id, p) ∷ m) (drop_more (p + 2) len (p + 2 + len) rest d' refl)
                ((len, g', ground arith), a) (omega (arith, length-drop len rest)) in
            rw enough (ground arith)
      ]

  ext_loop-Safe :
      (P : ℕ × ℕ → Type 0) (step : ℕ → List ℕ → List (ℕ × ℕ) → Step)
      → ((p : ℕ) (rest : List ℕ) (m : List (ℕ × ℕ))
          → drop p pre ≡ rest
          → All P m
          → RoundSafe P rest (step p rest m))
      → (fuel p : ℕ) (rest : List ℕ) (m : List (ℕ × ℕ)) → drop p pre ≡ rest
      → All P m
      → length rest < fuel
      → Safe (All P) (ext_loop step fuel p rest m)
  unfolding ext_loop
  ext_loop-Safe P step ok zero p rest m h a l = absurd (omega arith)
  ext_loop-Safe P step ok (suc fuel) p rest m h a l =
      elim (step p rest m)
          as (λ s.
            RoundSafe P rest s
            → Safe (All P) (elim s [
              | stop ↦ done m
              | bad ↦ throws
              | next p' rest' m' ↦ ext_loop step fuel p' rest' m'
            ])) [
              | stop ↦ λ r. a
              | bad ↦ λ r. tt
              | next p' rest' m' ↦
                  λ r. ext_loop-Safe P step ok fuel p' rest' m' (r.0) (r.1) (omega (arith, r.2))
            ]
        (ok p rest m h a)

drop-take : (m n k : ℕ) (xs : List ℕ) → m + n ≡ k → drop m (take k xs) ≡ take n (drop m xs)
drop-take zero n k xs e = let e' : k ≡ n = omega arith in ap (λ i. take i xs) e'
drop-take (suc m) n zero xs e = absurd (omega arith)
drop-take (suc m) zero (suc k) [] e = refl
drop-take (suc m) (suc n) (suc k) [] e = refl
drop-take (suc m) n (suc k) (x ∷ xs) e = drop-take m n k xs (omega arith)

pub parse_elements-Safe :
    (P : List ℕ → ℕ × ℕ → Type 0) (step : ℕ → List ℕ → List (ℕ × ℕ) → Step)
    → ((pre : List ℕ) (p : ℕ) (rest : List ℕ) (m : List (ℕ × ℕ))
        → drop p pre ≡ rest
        → All (P pre) m
        → RoundSafe pre (P pre) rest (step p rest m))
    → (ext words payload : ℕ) (body : List ℕ) → read2_bytes (drop (ext + 2) body) ≡ some words
    → words * 4 < 2 ^ 16
    → ext + 4 + words * 4 ≡ payload
    → payload ≤ length body
    → Safe (All (P (take payload body))) (parse_elements step ext body)
unfolding parse_elements get_ext_length
parse_elements-Safe P step ok ext words payload body hw hs hp hb =
    let e : words * 4 % 2 ^ 16 ≡ words * 4 = omega arith in
    rw (hw, e)
      (ext_loop-Safe (take payload body) (P (take payload body)) step (ok (take payload body))
        (suc (length (take (words * 4) (drop (ext + 4) body)))) (ext + 4)
        (take (words * 4) (drop (ext + 4) body)) []
        (drop-take (ext + 4) (words * 4) payload body hp) tt (omega arith))
