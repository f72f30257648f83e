-- ===== src/Nalu/AnnexB.antt =====
-- src/format/h264_h265_header.cpp: the units between start codes.
use cpp_streamer.Base.{ℕ, zero, suc, ◌+◌, ◌-◌, ◌≤◌, ◌<◌}
use cpp_streamer.Base.{◌≡◌, refl, sym, ap, ◌∙◌, inl, inr, Bool, true, false, ◌&&◌}
use cpp_streamer.Base.{List, [], ◌∷◌, ◌++◌, map, append-nil, arith}
use cpp_streamer.Base.{ltb, ◌==◌, Bool-cases, if◌then◌else◌}
use cpp_streamer.Base.{length, take, drop, All, length-drop, take-append-drop, drop-drop}
use mathlib.Core.Path.{subst, fun_ext}
use cpp_streamer.Base.{length-take}
use cpp_streamer.Nalu.Laws.{concat}
use cpp_streamer.Nalu.{start_code, find_codes, cut, code_at, annexb2nalus}

drop-suc :
    (xs : List ℕ) (p q b : ℕ) (rest : List ℕ)
    → drop p xs ≡ b ∷ rest
    → p + 1 ≡ q
    → (drop q xs ≡ rest) × (q ≤ length xs)
drop-suc xs p q b rest h e =
    (sym (drop-drop p 1 q xs e) ∙ ap (drop 1) h, omega (arith, ap length h, length-drop p xs))

-- Codes found in order: each is there, and the next one starts behind it.
abbrev StartsFrom : ℕ → List (ℕ × ℕ) → Type 0
StartsFrom p [] = Unit
StartsFrom p ((q, n) ∷ codes) = p ≤ q

abbrev Found : List ℕ → List (ℕ × ℕ) → Type 0
Found bytes [] = Unit
Found bytes ((q, n) ∷ codes) =
    (0 < n)
    × (start_code (drop q bytes) ≡ n)
    × (q ≤ length bytes)
    × StartsFrom (q + n) codes
    × Found bytes codes

StartsFrom-StartsFrom :
    (p q : ℕ) (codes : List (ℕ × ℕ)) → StartsFrom q codes → p ≤ q → StartsFrom p codes
StartsFrom-StartsFrom p q [] s l = tt
StartsFrom-StartsFrom p q ((r, n) ∷ codes) s l = omega arith

find_codes-Found :
    (bytes : List ℕ) (p skip : ℕ) (rest : List ℕ)
    → drop p bytes ≡ rest
    → StartsFrom (p + skip) (find_codes p skip rest) × Found bytes (find_codes p skip rest)
unfolding find_codes
find_codes-Found bytes p skip [] h = (tt, tt)
find_codes-Found bytes p (suc skip) (b ∷ rest) h =
    let (d, le) = drop-suc bytes p (p + 1) b rest h refl in
    let (from, found) = find_codes-Found bytes (p + 1) skip rest d in
    (
      StartsFrom-StartsFrom (p + suc skip) (p + 1 + skip) (find_codes (p + 1) skip rest) from
          (omega arith),
      found,
    )
find_codes-Found bytes p zero (b ∷ rest) h =
    let (d, le) = drop-suc bytes p (p + 1) b rest h refl in
    let n = start_code (b ∷ rest) in
    let codes = find_codes (p + 1) (n - 1) rest in
    let (from, found) = find_codes-Found bytes (p + 1) (n - 1) rest d in
    elim (Bool-cases (n == 0)) [
      | inl absent ↦
          rw (find_codes, absent)
            (StartsFrom-StartsFrom (p + 0) (p + 1 + (n - 1)) codes from (omega arith), found)
      | inr present ↦
          let pos : 0 < n = ground arith in
          rw (find_codes, present)
            (
              omega arith,
              (
                pos,
                ap start_code h,
                omega arith,
                StartsFrom-StartsFrom (p + n) (p + 1 + (n - 1)) codes from (omega arith),
                found,
              ),
            )
    ]

-- A cut at rising positions loses nothing from the first on.
concat-cut :
    (bytes : List ℕ) (q n : ℕ) (codes : List (ℕ × ℕ))
    → Found bytes ((q, n) ∷ codes)
    → concat (cut bytes (map code_at ((q, n) ∷ codes))) ≡ drop q bytes
unfolding cut
concat-cut bytes q n [] f = append-nil (drop q bytes)
concat-cut bytes q n ((r, m) ∷ codes) (pos, at, le, from, f) =
    let e : q + (r - q) ≡ r = omega arith in
    ap (λ k. take (r - q) (drop q bytes) ++ k)
      (concat-cut bytes r m codes f ∙ sym (drop-drop q (r - q) r bytes e))
    ∙ take-append-drop (r - q) (drop q bytes)

start_code_long : (xs : List ℕ) → 0 < start_code xs → 3 ≤ start_code xs
unfolding start_code
start_code_long [] h = absurd (omega arith)
start_code_long (a ∷ []) h = absurd (omega arith)
start_code_long (a ∷ b ∷ []) h = absurd (omega arith)
start_code_long (a ∷ b ∷ c ∷ []) h = ground arith
start_code_long (a ∷ b ∷ c ∷ d ∷ rest) h = ground arith

-- A code stays at the head of what it fits into.
start_code-take :
    (k : ℕ) (xs : List ℕ)
    → start_code xs ≤ k
    → 0 < start_code xs
    → start_code (take k xs) ≡ start_code xs
unfolding start_code
start_code-take zero xs le pos = absurd (omega arith)
start_code-take (suc zero) xs le pos = absurd (omega (arith, start_code_long xs pos))
start_code-take (suc (suc zero)) xs le pos = absurd (omega (arith, start_code_long xs pos))
start_code-take (suc (suc (suc k))) [] le pos = refl
start_code-take (suc (suc (suc k))) (a ∷ []) le pos = refl
start_code-take (suc (suc (suc k))) (a ∷ b ∷ []) le pos = refl
start_code-take (suc (suc (suc zero))) (a ∷ b ∷ c ∷ []) le pos = refl
start_code-take (suc (suc (suc (suc k)))) (a ∷ b ∷ c ∷ []) le pos = refl
start_code-take (suc (suc (suc zero))) (a ∷ b ∷ c ∷ d ∷ rest) le pos = ground arith
start_code-take (suc (suc (suc (suc k)))) (a ∷ b ∷ c ∷ d ∷ rest) le pos = refl

cut-All :
    (bytes : List ℕ) (codes : List (ℕ × ℕ))
    → Found bytes codes
    → All (λ u. 0 < start_code u) (cut bytes (map code_at codes))
unfolding cut
cut-All bytes [] f = tt
cut-All bytes ((q, n) ∷ []) (pos, at, le, from, f) = (omega arith, tt)
cut-All bytes ((q, n) ∷ (r, m) ∷ codes) (pos, at, le, from, f) =
    let same : start_code (take (r - q) (drop q bytes)) ≡ start_code (drop q bytes) =
      start_code-take (r - q) (drop q bytes) (omega arith) (omega arith) in
    (omega arith, cut-All bytes ((r, m) ∷ codes) f)

-- No start code begins at a place from `p` up to `q`.
abbrev pub NoCode : (List ℕ → ℕ) → List ℕ → ℕ → ℕ → Type 0
NoCode code bytes p q = (i : ℕ) → p ≤ i → i < q → code (drop i bytes) ≡ 0

-- No start code lies between the codes, from `p` on.
abbrev Gaps : List ℕ → ℕ → List (ℕ × ℕ) → Type 0
Gaps bytes p [] = NoCode start_code bytes p (length bytes)
Gaps bytes p ((q, n) ∷ codes) = NoCode start_code bytes p q × Gaps bytes (q + n) codes

NoCode-before :
    (bytes : List ℕ) (p q : ℕ)
    → start_code (drop p bytes) ≡ 0
    → NoCode start_code bytes (p + 1) q
    → NoCode start_code bytes p q
NoCode-before bytes p q none_here later i lo hi = elim (Bool-cases (i == p)) [
  | inl same ↦ let e : i ≡ p = ground arith in ap (λ k. start_code (drop k bytes)) e ∙ none_here
  | inr other ↦ later i (ground arith) hi
]

Gaps-before :
    (bytes : List ℕ) (p : ℕ) (codes : List (ℕ × ℕ))
    → start_code (drop p bytes) ≡ 0
    → Gaps bytes (p + 1) codes
    → Gaps bytes p codes
Gaps-before bytes p [] none_here g = NoCode-before bytes p (length bytes) none_here g
Gaps-before bytes p ((q, n) ∷ codes) none_here g = (NoCode-before bytes p q none_here g.0, g.1)

find_codes-Gaps :
    (bytes : List ℕ) (p skip : ℕ) (rest : List ℕ)
    → drop p bytes ≡ rest
    → Gaps bytes (p + skip) (find_codes p skip rest)
unfolding find_codes
find_codes-Gaps bytes p skip [] h =
    (λ i lo hi. absurd (omega (arith, ap length h, length-drop p bytes)))
find_codes-Gaps bytes p (suc skip) (b ∷ rest) h =
    let (d, le) = drop-suc bytes p (p + 1) b rest h refl in
    let e : p + 1 + skip ≡ p + suc skip = omega arith in
    subst (λ k. Gaps bytes k (find_codes (p + 1) skip rest)) e
      (find_codes-Gaps bytes (p + 1) skip rest d)
find_codes-Gaps bytes p zero (b ∷ rest) h =
    let (d, le) = drop-suc bytes p (p + 1) b rest h refl in
    let n = start_code (b ∷ rest) in
    let codes = find_codes (p + 1) (n - 1) rest in
    let later = find_codes-Gaps bytes (p + 1) (n - 1) rest d in
    elim (Bool-cases (n == 0)) [
      | inl absent ↦
          let here : start_code (drop p bytes) ≡ 0 = ap start_code h ∙ ground arith in
          let e : p + 1 + (n - 1) ≡ p + 0 + 1 = ground arith in
          let e0 : p ≡ p + 0 = omega arith in
          rw (find_codes, absent)
            (Gaps-before bytes (p + 0) codes (subst (λ k. start_code (drop k bytes) ≡ 0) e0 here)
              (subst (λ k. Gaps bytes k codes) e later))
      | inr present ↦
          let e : p + 1 + (n - 1) ≡ p + n = ground arith in
          rw (find_codes, present)
            ((λ i lo hi. absurd (omega arith)), subst (λ k. Gaps bytes k codes) e later)
    ]

-- The units stand one behind the other from `p` on, each begins with a start code of the bytes, and none
-- has another start code in it.
abbrev pub Units : (List ℕ → ℕ) → List ℕ → ℕ → List (List ℕ) → Type 0
Units code bytes p [] = Unit
Units code bytes p (u ∷ us) =
    (0 < code (drop p bytes))
    × NoCode code bytes (p + code (drop p bytes)) (p + length u)
    × Units code bytes (p + length u) us

cut-Units :
    (bytes : List ℕ) (q n : ℕ) (codes : List (ℕ × ℕ))
    → Found bytes ((q, n) ∷ codes)
    → Gaps bytes (q + n) codes
    → Units start_code bytes q (cut bytes (map code_at ((q, n) ∷ codes)))
unfolding cut
cut-Units bytes q n [] (pos, at, le, from, f) g =
    let size : q + length (drop q bytes) ≡ length bytes = omega (arith, length-drop q bytes) in
    (omega arith, (λ i lo hi. g i (omega arith) (omega arith)), tt)
cut-Units bytes q n ((r, m) ∷ codes) (pos, at, le, from, f) (clean, g) =
    let size : q + length (take (r - q) (drop q bytes)) ≡ r =
      omega (arith, length-take (r - q) (drop q bytes), length-drop q bytes, f.2) in
    (
      omega arith,
      (λ i lo hi. clean i (omega arith) (omega arith)),
      subst (λ k. Units start_code bytes k (cut bytes (map code_at ((r, m) ∷ codes)))) (sym size)
          (cut-Units bytes r m codes f g),
    )

-- Without a code nothing is cut off, and else the bytes before the first.
cut_whole :
    (bytes : List ℕ) (codes : List (ℕ × ℕ))
    → Found bytes codes
    → Gaps bytes 0 codes
    → (front : List ℕ) × (front ++ concat (cut bytes (map code_at codes)) ≡ bytes)
      × NoCode start_code bytes 0 (length front)
      × Units start_code bytes (length front) (cut bytes (map code_at codes))
unfolding cut
cut_whole bytes [] f g = (bytes, append-nil bytes, g, tt)
cut_whole bytes ((q, n) ∷ codes) f g =
    let size : length (take q bytes) ≡ q = omega (arith, length-take q bytes, f.2) in
    (
      take q bytes,
      ap (λ k. take q bytes ++ k) (concat-cut bytes q n codes f) ∙ take-append-drop q bytes,
      (λ i lo hi. g.0 i lo (omega arith)),
      subst (λ k. Units start_code bytes k (cut bytes (map code_at ((q, n) ∷ codes)))) (sym size)
          (cut-Units bytes q n codes f g.1),
    )

-- The bytes begin with a code.
abbrev pub begins_with : List ℕ → List ℕ → Bool
begins_with [] xs = true
begins_with (c ∷ cs) [] = false
begins_with (c ∷ cs) (x ∷ xs) = x == c && begins_with cs xs

-- The length of the start code of ISO/IEC 14496-10, annex B, that the bytes begin with, 0 for none.
abbrev pub code_length : List ℕ → ℕ
code_length xs =
    if begins_with (0 ∷ 0 ∷ 1 ∷ []) xs
    then 3
    else if begins_with (0 ∷ 0 ∷ 0 ∷ 1 ∷ []) xs
    then 4
    else 0

start_code_lem : (xs : List ℕ) → start_code xs ≡ code_length xs
unfolding start_code
start_code_lem [] = refl
start_code_lem (a ∷ []) = ground arith
start_code_lem (a ∷ b ∷ []) = ground arith
start_code_lem (a ∷ b ∷ c ∷ []) = ground arith
start_code_lem (a ∷ b ∷ c ∷ d ∷ rest) = ground arith

-- AnnexB2Nalus on at least four bytes succeeds and cuts them at every start code: the input is some bytes
-- and then the units one after another, each unit begins with a start code of the input, and no other
-- start code begins anywhere in it, be it in front of the units or in one of them behind its own code.
pub annexb2nalus-Units :
    (bytes : List ℕ)
    → 4 ≤ length bytes
    → (front : List ℕ) × ((annexb2nalus bytes).0 ≡ true)
      × (front ++ concat (annexb2nalus bytes).1 ≡ bytes)
      × NoCode code_length bytes 0 (length front)
      × Units code_length bytes (length front) (annexb2nalus bytes).1
      × All (λ u. 0 < code_length u) (annexb2nalus bytes).1
unfolding annexb2nalus
annexb2nalus-Units bytes h =
    let same : start_code ≡ code_length = fun_ext start_code_lem in
    let held : ltb (length bytes) 4 ≡ false = ground arith in
    let (from, found) = find_codes-Found bytes 0 0 bytes refl in
    let gaps = find_codes-Gaps bytes 0 0 bytes refl in
    let (front, whole, clean, units) = cut_whole bytes (find_codes 0 0 bytes) found gaps in
    rw (annexb2nalus, held)
      (
        front,
        refl,
        whole,
        subst (λ f. NoCode f bytes 0 (length front)) same clean,
        subst (λ f. Units f bytes (length front) (cut bytes (map code_at (find_codes 0 0 bytes))))
            same units,
        subst (λ f. All (λ u. 0 < f u) (cut bytes (map code_at (find_codes 0 0 bytes)))) same
            (cut-All bytes (find_codes 0 0 bytes) found),
      )
