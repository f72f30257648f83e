-- ===== src/Amf/Codec/Reads.antt =====
-- src/format/amf/amf0.hpp: how far a read moves the decoder's pointer.
use cpp_streamer.Base.{ℕ, ◌+◌, ◌≤◌, ◌<◌}
use cpp_streamer.Base.{◌≡◌, refl, ap, inl, inr, Bool, true, false}
use cpp_streamer.Base.{Option, none, some, List, [], ◌∷◌, arith}
use cpp_streamer.Base.{ltb, leb, ◌==◌, Bool-cases, Option-cases}
use cpp_streamer.Base.{length, take, drop, length-drop}
use cpp_streamer.Utils.ByteStream.{read2_bytes, read4_bytes, read8_bytes}
use cpp_streamer.Amf.{read_chars, Decoded, ret, overrun, exhausted, get, map_decoded, advance}
use cpp_streamer.Amf.Codec.{
  read1, read2, read4, read8, read_key, object_end, value_at, key_chars, key_of_length, KeyStep,
  finished, refused, key_read, no_key,
}

-- The model has not run out of rounds, and the pointer has gone forward.
abbrev pub Ends : {A : Type 0} → ℕ → Decoded A → Type 0
Ends n (ret code a rest) = length rest ≤ n
Ends n overrun = Unit
Ends n exhausted = ⊥

-- And by a byte at least, if the code is 0.
abbrev pub Advances : {A : Type 0} → ℕ → Decoded A → Type 0
Advances n (ret true a rest) = length rest < n
Advances n (ret false a rest) = length rest ≤ n
Advances n overrun = Unit
Advances n exhausted = ⊥

pub read1-length :
    (bytes : List ℕ) (b : ℕ) (rest : List ℕ)
    → read1 bytes ≡ some (b, rest)
    → length rest + 1 ≡ length bytes
unfolding read1
read1-length [] b rest e = absurd (ground arith)
read1-length (x ∷ xs) b rest e = ground arith

advance-length :
    (n : ℕ) (bytes : List ℕ) (o : Option ℕ) (v : ℕ) (rest : List ℕ)
    → advance n bytes o ≡ some (v, rest)
    → length rest ≤ length bytes
advance-length n bytes none v rest e = absurd (ground arith)
advance-length n bytes (some w) v rest e =
    let d : drop n bytes ≡ rest = ground arith in omega (arith, length-drop n bytes, ap length d)

pub read2-length :
    (bytes : List ℕ) (v : ℕ) (rest : List ℕ)
    → read2 bytes ≡ some (v, rest)
    → length rest + 2 ≡ length bytes
unfolding read2 read2_bytes
read2-length [] v rest e = absurd (ground arith)
read2-length (a ∷ []) v rest e = absurd (ground arith)
read2-length (a ∷ b ∷ xs) v rest e = ground arith

pub read4-length :
    (bytes : List ℕ) (v : ℕ) (rest : List ℕ)
    → read4 bytes ≡ some (v, rest)
    → length rest + 4 ≡ length bytes
unfolding read4 read4_bytes
read4-length [] v rest e = absurd (ground arith)
read4-length (a ∷ []) v rest e = absurd (ground arith)
read4-length (a ∷ b ∷ []) v rest e = absurd (ground arith)
read4-length (a ∷ b ∷ c ∷ []) v rest e = absurd (ground arith)
read4-length (a ∷ b ∷ c ∷ d ∷ xs) v rest e = ground arith

pub read8-length :
    (bytes : List ℕ) (v : ℕ) (rest : List ℕ)
    → read8 bytes ≡ some (v, rest)
    → length rest ≤ length bytes
unfolding read8
read8-length bytes v rest e = advance-length 8 bytes (read8_bytes bytes) v rest e

pub Ends-Ends : {A : Type 0} (n m : ℕ) (d : Decoded A) → Ends n d → n ≤ m → Ends m d
Ends-Ends n m (ret code a rest) e l = omega arith
Ends-Ends n m overrun e l = tt
Ends-Ends n m exhausted e l = e

pub Ends-Advances : {A : Type 0} (n m : ℕ) (d : Decoded A) → Ends n d → n < m → Advances m d
Ends-Advances n m (ret true a rest) e l = omega arith
Ends-Advances n m (ret false a rest) e l = omega arith
Ends-Advances n m overrun e l = tt
Ends-Advances n m exhausted e l = e

pub read_chars-length :
    (n : ℕ) (bytes s rest : List ℕ)
    → read_chars n bytes ≡ some (s, rest)
    → length rest ≤ length bytes
unfolding read_chars
read_chars-length n bytes s rest e = elim (Bool-cases (ltb (length bytes) n)) [
  | inl short ↦
      let e' : ◌≡◌ {A = Option (List ℕ × List ℕ)} none (some (s, rest)) = rw short at e in
      absurd (ground arith)
  | inr held ↦
      let e' : ◌≡◌ {A = Option (List ℕ × List ℕ)} (some (take n bytes, drop n bytes))
          (some (s, rest)) =
        rw held at e in
      let d : drop n bytes ≡ rest = ground arith in omega (arith, length-drop n bytes, ap length d)
]

pub get-Ends :
    {A B : Type 0} (n : ℕ) (o : Option (A × List ℕ)) (f : A → List ℕ → Decoded B)
    → ((a : A) (rest : List ℕ) → o ≡ some (a, rest) → Ends n (f a rest))
    → Ends n (get o f)
get-Ends n none f h = tt
get-Ends n (some (a, rest)) f h = h a rest refl

pub map-Ends :
    {A B : Type 0} (n m : ℕ) (c : Bool → Bool) (f : A → B) (d : Decoded A)
    → Ends n d
    → n ≤ m
    → Ends m (map_decoded c f d)
map-Ends n m c f (ret code a rest) e l = omega arith
map-Ends n m c f overrun e l = tt
map-Ends n m c f exhausted e l = e

-- A member's value stands behind two bytes and a key.
abbrev pub KeyEnds : ℕ → KeyStep → Type 0
KeyEnds n (finished rest) = length rest ≤ n
KeyEnds n (refused rest) = length rest ≤ n
KeyEnds n (key_read key rest) = length rest < n
KeyEnds n no_key = Unit

object_end-KeyEnds : (n : ℕ) (bytes : List ℕ) → length bytes ≤ n → KeyEnds n (object_end bytes)
unfolding object_end
object_end-KeyEnds n [] l = tt
object_end-KeyEnds n (b ∷ rest) l = ground arith

value_at-KeyEnds : (n : ℕ) (key bytes : List ℕ) → length bytes < n → KeyEnds n (value_at key bytes)
unfolding value_at
value_at-KeyEnds n key [] l = tt
value_at-KeyEnds n key (b ∷ rest) l = ground arith

key_of_length-KeyEnds :
    (bytes : List ℕ) (o : Option (ℕ × List ℕ))
    → read2 bytes ≡ o
    → KeyEnds (length bytes) (key_of_length o)
unfolding key_of_length key_chars
key_of_length-KeyEnds bytes none e = tt
key_of_length-KeyEnds bytes (some (key_len, rest)) e =
    let l = read2-length bytes key_len rest e in
    elim (Bool-cases (key_len == 0)) [
      | inl last ↦ rw last (object_end-KeyEnds (length bytes) rest (omega arith))
      | inr more ↦ elim (Option-cases (read_chars key_len rest)) [
        | inl missing ↦ rw (more, missing) tt
        | inr ((key, value), r) ↦
            let l' = read_chars-length key_len rest key value r in
            rw (more, r) (value_at-KeyEnds (length bytes) key value (omega arith))
      ]
    ]

pub read_key-KeyEnds :
    (behind : ℕ) (bytes : List ℕ) → KeyEnds (length bytes) (read_key behind bytes)
unfolding read_key
read_key-KeyEnds behind bytes = elim (Bool-cases (leb (length bytes) behind)) [
  | inl last ↦ let l : length bytes ≤ length bytes = omega arith in rw last l
  | inr more ↦ rw more (key_of_length-KeyEnds bytes (read2 bytes) refl)
]
