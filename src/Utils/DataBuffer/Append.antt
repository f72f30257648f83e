-- ===== src/Utils/DataBuffer/Append.antt =====
-- src/utils/data_buffer.hpp: AppendData on the bytes held, over the invariant that keeps every access in
-- the allocation.
use cpp_streamer.Base.{ℕ, ◌+◌, ◌%◌, ◌^◌, ◌≤◌, ◌<◌}
use cpp_streamer.Base.{◌≡◌, refl, sym, ap, ◌∙◌, ◌⊎◌, inl, inr, true, ◌||◌}
use cpp_streamer.Base.{some, List, [], ◌∷◌, ◌++◌, append-nil, arith}
use cpp_streamer.Base.{ltb, leb, ◌==◌, if◌then◌else◌, lt→ltb, Bool-cases}
use cpp_streamer.Base.{length}
use cpp_streamer.Utils.DataBuffer.{
  DataBuffer, get_new_size, grow, slide, extend, usable, append_nonempty, append_data, disjoint,
  copy_in, copy_out,
}
use cpp_streamer.Utils.DataBuffer.Memory.{
  Cells, write, slice, length-slice, slice-write_below, slice-write_self, slice-append,
}

-- The bytes held.
unfoldable pub view : DataBuffer → List ℕ
view b = slice b.mem b.start b.data_len

-- The data ends at `end_`, in the allocation, and the reserved room fits in the recorded size.
pub record IsValid (b : DataBuffer) : Type 0 where
  pub ends : b.end ≡ b.start + b.data_len
  pub inside : b.end ≤ b.alloc
  pub sized : b.buffer_size ≤ b.alloc
  pub reserved : 200 ≤ b.buffer_size
  pub front : 200 ≤ b.alloc
  pub small : b.alloc < 2 ^ 31
  pub tight : b.alloc ≤ b.buffer_size + 200

-- Where AppendData would move the data down by one `memcpy`, the two ranges are apart.
abbrev pub CanSlide : DataBuffer → Type 0
CanSlide b = (b.start ≤ b.data_len) ⊎ (200 + b.data_len ≤ b.start) ⊎ (b.start + b.data_len ≤ 200)

-- What an append of `xs` to a buffer that held `old` gives.
pub record Appended (old xs : List ℕ) (b : DataBuffer) : Type 0 where
  pub valid : IsValid b
  pub held : view b ≡ old ++ xs
  pub count : b.data_len ≡ length old + length xs

copied_in :
    (alloc off : ℕ) (m : Cells) (xs : List ℕ)
    → off + length xs ≤ alloc
    → copy_in alloc m off xs ≡ some (write m off xs)
unfolding copy_in
copied_in alloc off m xs h = ground arith

copied_out :
    (alloc off n : ℕ) (m : Cells) → off + n ≤ alloc → copy_out alloc m off n ≡ some (slice m off n)
unfolding copy_out
copied_out alloc off n m h = ground arith

get_new_size_bounds :
    (n : ℕ) → (n ≤ get_new_size n) × (51200 ≤ get_new_size n) × (get_new_size n ≤ n + 307200)
unfolding get_new_size
get_new_size_bounds n = ground arith

-- Two adjacent stores read back as one list.
slice-write-write :
    (m : Cells) (off n p : ℕ) (xs ys : List ℕ)
    → length xs ≡ n
    → off + n ≡ p
    → slice (write (write m off xs) p ys) off (n + length ys) ≡ xs ++ ys
slice-write-write m off n p xs ys h e =
    slice-append _ off n (length ys) p (n + length ys) e refl
    ∙ ap (λ l. l ++ slice (write (write m off xs) p ys) p (length ys))
        (slice-write_below (write m off xs) off n p ys (omega arith)
          ∙ slice-write_self m off n xs h)
    ∙ ap (λ l. xs ++ l) (slice-write_self (write m off xs) p (length ys) ys refl)

extend-Appended :
    (b : DataBuffer) (xs : List ℕ)
    → IsValid b
    → b.end + length xs ≤ b.alloc
    → (b' : DataBuffer) × (extend b xs ≡ some b') × Appended (view b) xs b'
unfolding extend view
extend-Appended b xs v h = (
  record b {
    mem = write b.mem b.end xs;
    data_len = b.data_len + length xs;
    end = b.end + length xs;
  },
  rw (copied_in b.alloc b.end b.mem xs h),
  record {
    valid = ground arith;
    held =
        slice-append _ b.start b.data_len (length xs) b.end _ (omega arith) refl
        ∙ ap (λ l. l ++ slice (write b.mem b.end xs) b.end (length xs))
            (slice-write_below b.mem b.start b.data_len b.end xs (omega arith))
        ∙ ap (λ l. slice b.mem b.start b.data_len ++ l)
            (slice-write_self b.mem b.end (length xs) xs refl);
    count = omega (arith, length-slice b.mem b.start b.data_len);
  },
)

grow-Appended :
    (junk : Cells) (b : DataBuffer) (xs : List ℕ)
    → IsValid b
    → b.data_len + length xs + 400000 < 2 ^ 31
    → (b' : DataBuffer) × (grow junk b xs ≡ some b') × Appended (view b) xs b'
unfolding grow view
grow-Appended junk b xs v h =
    let new_len = get_new_size (b.data_len + length xs + 10240) in
    let roomy : (b.data_len + length xs + 10240 ≤ new_len) × (new_len < 2 ^ 31) =
      omega (arith, get_new_size_bounds (b.data_len + length xs + 10240)) in
    (
      record b {
        mem = write (write junk 200 (view b)) (200 + b.data_len) xs;
        alloc = new_len;
        buffer_size = new_len;
        data_len = b.data_len + length xs;
        start = 200;
        end = 200 + (b.data_len + length xs);
      },
      rw (
        lt→ltb _ _ roomy.1,
        copied_out b.alloc b.start b.data_len b.mem (omega arith),
        copied_in new_len 200 junk (view b) (omega (arith, length-slice b.mem b.start b.data_len)),
        copied_in new_len (200 + b.data_len) (write junk 200 (view b)) xs (omega arith),
      ),
      record {
        valid = record {
          ends = refl;
          inside = omega arith;
          sized = omega arith;
          reserved = omega arith;
          front = omega arith;
          small = omega arith;
          tight = omega arith;
        };
        held =
            slice-write-write junk 200 b.data_len (200 + b.data_len) (view b) xs
              (length-slice b.mem b.start b.data_len) refl;
        count = omega (arith, length-slice b.mem b.start b.data_len);
      },
    )

CanSlide-test :
    (b : DataBuffer)
    → CanSlide b
    → (leb b.start b.data_len || disjoint 200 b.start b.data_len) ≡ true
CanSlide-test b c = ground arith

slide-Appended :
    (b : DataBuffer) (xs : List ℕ)
    → IsValid b
    → CanSlide b
    → b.data_len + length xs + 200 ≤ b.alloc
    → (b' : DataBuffer) × (slide b xs ≡ some b') × Appended (view b) xs b'
unfolding slide view
slide-Appended b xs v c h = (
  record b {
    mem = write (write b.mem 200 (view b)) (200 + b.data_len) xs;
    data_len = b.data_len + length xs;
    start = 200;
    end = 200 + (b.data_len + length xs);
  },
  rw (
    CanSlide-test b c,
    copied_out b.alloc b.start b.data_len b.mem (omega arith),
    copied_in b.alloc 200 b.mem (view b) (omega (arith, length-slice b.mem b.start b.data_len)),
    copied_in b.alloc (200 + b.data_len) (write b.mem 200 (view b)) xs (omega arith),
  ),
  record {
    valid = record {
      ends = refl;
      inside = omega arith;
      sized = omega arith;
      reserved = omega arith;
      front = omega arith;
      small = omega arith;
      tight = omega arith;
    };
    held =
        slice-write-write b.mem 200 b.data_len (200 + b.data_len) (view b) xs
          (length-slice b.mem b.start b.data_len) refl;
    count = omega (arith, length-slice b.mem b.start b.data_len);
  },
)

append_nonempty-Appended :
    (junk : Cells) (b : DataBuffer) (xs : List ℕ)
    → IsValid b
    → CanSlide b
    → b.data_len + length xs + 400000 < 2 ^ 31
    → (b' : DataBuffer) × (append_nonempty junk b xs ≡ some b') × Appended (view b) xs b'
unfolding append_nonempty
append_nonempty-Appended junk b xs v c h =
    elim (Bool-cases (ltb (usable b) ((b.end + length xs) % 2 ^ 64))) [
      | inl far ↦ elim (Bool-cases (leb (usable b) ((b.data_len + length xs) % 2 ^ 64))) [
        | inl full ↦ rw (far, full) (grow-Appended junk b xs v h)
        | inr fits ↦ rw (far, fits) (slide-Appended b xs v c (ground arith))
      ]
      | inr near ↦ rw near (extend-Appended b xs v (ground arith))
    ]

-- On a valid buffer that can slide, and for sizes that stay below 2^31, AppendData is defined: it
-- keeps the buffer valid, appends exactly the input to the bytes held, and returns their new number,
-- or 0 for no input.
pub append_data-Appended :
    (junk : Cells) (b : DataBuffer) (xs : List ℕ)
    → IsValid b
    → CanSlide b
    → b.data_len + length xs + 400000 < 2 ^ 31
    → (b' : DataBuffer) × (append_data junk b xs
        ≡ some (b', if length xs == 0 then 0 else b'.data_len))
      × Appended (view b) xs b'
unfolding append_data view
append_data-Appended junk b [] v c h = (
  b,
  refl,
  record {
    valid = v;
    held = sym (append-nil _);
    count = omega (arith, length-slice b.mem b.start b.data_len);
  },
)
append_data-Appended junk b (x ∷ xs) v c h =
    let (b', e, a) = append_nonempty-Appended junk b (x ∷ xs) v c h in
    (b', rw e (ap (λ n. some (b', n)) (ground arith)), a)
