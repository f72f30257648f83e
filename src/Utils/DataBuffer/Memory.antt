-- ===== src/Utils/DataBuffer/Memory.antt =====
-- Byte memory: storing a list of bytes at an address, and reading a range back.
use cpp_streamer.Base.{ℕ, zero, suc, ◌+◌, ◌≤◌, ◌≡◌, refl, ap, arith}
use cpp_streamer.Base.{List, [], ◌∷◌, ◌++◌, length, ◌==◌, if◌then◌else◌}

abbrev pub Cells : Type 0
Cells = ℕ → ℕ

unfoldable pub write : Cells → ℕ → List ℕ → Cells
write m off [] a = m a
write m off (x ∷ xs) a = if a == off then x else write m (suc off) xs a

unfoldable pub slice : Cells → ℕ → ℕ → List ℕ
slice m off zero = []
slice m off (suc n) = m off ∷ slice m (suc off) n

pub length-slice : (m : Cells) (off n : ℕ) → length (slice m off n) ≡ n
unfolding slice
length-slice m off zero = refl
length-slice m off (suc n) = ap suc (length-slice m (suc off) n)

write_below : (m : Cells) (off a : ℕ) (xs : List ℕ) → suc a ≤ off → write m off xs a ≡ m a
unfolding write
write_below m off a [] h = refl
write_below m off a (x ∷ xs) h = ground (arith, write_below m (suc off) a xs)

-- A store behind the range leaves it alone.
pub slice-write_below :
    (m : Cells) (off n p : ℕ) (xs : List ℕ)
    → off + n ≤ p
    → slice (write m p xs) off n ≡ slice m off n
unfolding slice
slice-write_below m off zero p xs h = refl
slice-write_below m off (suc n) p xs h =
    ground (arith, write_below m p off xs, slice-write_below m (suc off) n p xs)

-- So does one before it.
write_above : (m : Cells) (off a : ℕ) (xs : List ℕ) → off + length xs ≤ a → write m off xs a ≡ m a
unfolding write
write_above m off a [] h = refl
write_above m off a (x ∷ xs) h = ground (arith, write_above m (suc off) a xs)

pub slice-write_above :
    (m : Cells) (off n p : ℕ) (xs : List ℕ)
    → p + length xs ≤ off
    → slice (write m p xs) off n ≡ slice m off n
unfolding slice
slice-write_above m off zero p xs h = refl
slice-write_above m off (suc n) p xs h =
    ground (arith, write_above m p off xs, slice-write_above m (suc off) n p xs)

-- A range reads as what it was stored as.
slice_over :
    (m : Cells) (off n p : ℕ) (x : ℕ) (xs : List ℕ)
    → suc p ≤ off
    → slice (write m p (x ∷ xs)) off n ≡ slice (write m (suc p) xs) off n
unfolding slice write
slice_over m off zero p x xs h = refl
slice_over m off (suc n) p x xs h = ground (arith, slice_over m (suc off) n p x xs)

pub slice-write_self :
    (m : Cells) (off n : ℕ) (xs : List ℕ) → length xs ≡ n → slice (write m off xs) off n ≡ xs
unfolding slice write
slice-write_self m off zero [] h = refl
slice-write_self m off zero (x ∷ xs) h = absurd (omega arith)
slice-write_self m off (suc n) [] h = absurd (omega arith)
slice-write_self m off (suc n) (x ∷ xs) h =
    ground (arith, slice_over m (suc off) n off x xs, slice-write_self m (suc off) n xs)

pub slice-append :
    (m : Cells) (off n k p j : ℕ)
    → off + n ≡ p
    → n + k ≡ j
    → slice m off j ≡ slice m off n ++ slice m p k
unfolding slice
slice-append m off zero k p j h e =
    let e' : k ≡ j = omega arith in let h' : off ≡ p = omega arith in ground arith
slice-append m off (suc n) k p zero h e = absurd (omega arith)
slice-append m off (suc n) k p (suc j) h e = ground (arith, slice-append m (suc off) n k p j)
