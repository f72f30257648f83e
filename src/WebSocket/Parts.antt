-- ===== src/WebSocket/Parts.antt =====
-- src/net/http/websocket/websocket_frame.cpp: what a header that has come in part leaves for the next call
-- of Parse.
use cpp_streamer.Base.{drop-append_long}
use cpp_streamer.Base.{ℕ, ◌+◌, ◌/◌, ◌%◌, ◌≤◌}
use cpp_streamer.Base.{◌≡◌, refl, sym, ap, ◌∙◌, ◌≢◌, inl, inr, Bool, true, false}
use cpp_streamer.Base.{some, List, [], ◌∷◌, ◌++◌, arith}
use cpp_streamer.Base.{ltb, ◌==◌, ◌>>=◌, Bool-cases, >>=-eq-some}
use cpp_streamer.Base.{length, drop, length-append}
use mathlib.Core.Path.{subst}
use cpp_streamer.WebSocket.{Frame, read_length, take_key, read_mask, read_header}
use cpp_streamer.WebSocket.Lengths.{
  plus, with_mask, frame_of, frames, still, Settled, length_waits, take_key-append, Settled_lem,
}

mask-plus :
    (m : Bool) (ys : List ℕ) (s t : Frame)
    → read_mask m (true, s) ≡ some (true, t)
    → read_mask m (true, plus ys s) ≡ some (true, plus ys t)
unfolding read_mask
mask-plus false ys s t e = ap (frames (plus ys)) e
mask-plus true ys s t e = elim (Bool-cases (ltb (length s.buffer) (s.payload_start + 4))) [
  | inl short ↦ cc (rw short at e)
  | inr long ↦
      let more : length s.buffer ≤ length (s.buffer ++ ys) =
        omega (arith, length-append s.buffer ys) in
      rw
        (
          still (length s.buffer) (length (s.buffer ++ ys)) (s.payload_start + 4) long more,
          drop-append_long s.payload_start s.buffer ys (ground arith),
        )
        (take_key-append (drop s.payload_start s.buffer) ys (record s { mask_enable = true }) t
          (rw long at e))
]

take_key_whole : (xs : List ℕ) (s t : Frame) → take_key xs s ≢ some (false, t)
unfolding take_key
take_key_whole [] s t = λ e. cc
take_key_whole (a ∷ []) s t = λ e. cc
take_key_whole (a ∷ b ∷ []) s t = λ e. cc
take_key_whole (a ∷ b ∷ c ∷ []) s t = λ e. cc
take_key_whole (a ∷ b ∷ c ∷ d ∷ rest) s t = λ e. cc

mask_waits :
    (m : Bool) (s t : Frame)
    → read_mask m (true, s) ≡ some (false, t)
    → t ≡ record s { mask_enable = m }
unfolding read_mask
mask_waits false s t e = cc
mask_waits true s t e = elim (Bool-cases (ltb (length s.buffer) (s.payload_start + 4))) [
  | inl short ↦ sym (ap (frame_of s) (rw short at e))
  | inr long ↦ absurd (
      take_key_whole (drop s.payload_start s.buffer) (record s { mask_enable = true }) t
        (rw long at e))
]

mask_again :
    (m k : Bool) (s : Frame)
    → read_mask m (true, record s { mask_enable = k }) ≡ read_mask m (true, s)
unfolding read_mask
mask_again m k s = refl

-- The state in which the extended length is read.
abbrev pub begun : ℕ → ℕ → Frame → Frame
begun b0 b1 s = record s {
  payload_len = b1 % 128;
  payload_start = 2;
  fin = b0 / 128 % 2 == 1;
  opcode = b0 % 16;
}

more_bytes : (ys : List ℕ) (s : Frame) → length s.buffer ≤ length (s.buffer ++ ys)
more_bytes ys s = omega (arith, length-append s.buffer ys)

-- What one reading of the header gives, and what the next one, with more bytes, does with it.
found-plus :
    (m : Bool) (b0 b1 : ℕ) (rest ys : List ℕ) (s h : Frame) (r : Bool × Frame)
    → read_length (b1 % 128) rest (begun b0 b1 s) ≡ some r
    → read_mask m r ≡ some (true, h)
    → (read_length (b1 % 128) (rest ++ ys) (begun b0 b1 (plus ys s)) >>= read_mask m)
      ≡ some (true, plus ys h)
unfolding read_mask
found-plus m b0 b1 rest ys s h (false, u) there masked = cc
found-plus m b0 b1 rest ys s h (true, u) there masked =
    let st : Settled (b1 % 128) rest (begun b0 b1 s) u =
      Settled_lem (b1 % 128) rest (begun b0 b1 s) u there in
    ap (λ o. o >>= read_mask m) (st.later ys (begun b0 b1 (plus ys s)) (more_bytes ys s) refl refl)
    ∙ subst (λ x. read_mask m (true, plus ys x) ≡ some (true, plus ys h)) st.now
        (mask-plus m ys u h masked)

pub header-plus :
    (b0 b1 : ℕ) (rest ys : List ℕ) (s h : Frame)
    → read_header (b0 ∷ b1 ∷ rest) s ≡ some (true, h)
    → read_header (b0 ∷ b1 ∷ (rest ++ ys)) (plus ys s) ≡ some (true, plus ys h)
unfolding read_header
header-plus b0 b1 rest ys s h e =
    let (r, there, masked) =
      >>=-eq-some (read_length (b1 % 128) rest (begun b0 b1 s)) (read_mask (b1 / 128 % 2 == 1)) e in
    found-plus (b1 / 128 % 2 == 1) b0 b1 rest ys s h r there masked

abbrev pub Again : Bool → ℕ → ℕ → List ℕ → List ℕ → Frame → Frame → Type 0
Again m b0 b1 rest ys s h =
    ((read_length (b1 % 128) (rest ++ ys) (begun b0 b1 (plus ys h)) >>= read_mask m)
      ≡ (read_length (b1 % 128) (rest ++ ys) (begun b0 b1 (plus ys s)) >>= read_mask m))
    × (h.header_ready ≡ s.header_ready)
    × (h.buffer ≡ s.buffer)

found-Again :
    (m : Bool) (b0 b1 : ℕ) (rest ys : List ℕ) (s h : Frame) (r : Bool × Frame)
    → read_length (b1 % 128) rest (begun b0 b1 s) ≡ some r
    → read_mask m r ≡ some (false, h)
    → Again m b0 b1 rest ys s h
unfolding read_mask
found-Again m b0 b1 rest ys s h (false, u) there masked =
    let same : begun b0 b1 s ≡ h =
      sym (length_waits (b1 % 128) rest (begun b0 b1 s) u there) ∙ ap (frame_of u) masked in
    subst (Again m b0 b1 rest ys s) same (refl, refl, refl)
found-Again m b0 b1 rest ys s h (true, u) there masked =
    let st : Settled (b1 % 128) rest (begun b0 b1 s) u =
      Settled_lem (b1 % 128) rest (begun b0 b1 s) u there in
    let k : Frame = record (begun b0 b1 s) {
      payload_len = st.v;
      payload_start = st.start;
      mask_enable = m;
    } in
    let same : k ≡ h = sym (mask_waits m u h masked ∙ ap (with_mask m) st.now) in
    subst (Again m b0 b1 rest ys s) same (
      ap (λ o. o >>= read_mask m)
            (st.later ys (begun b0 b1 (plus ys k)) (more_bytes ys s) refl refl)
          ∙ mask_again m m
              (record (begun b0 b1 (plus ys s)) { payload_len = st.v; payload_start = st.start })
          ∙ sym (
              ap (λ o. o >>= read_mask m)
                (st.later ys (begun b0 b1 (plus ys s)) (more_bytes ys s) refl refl)),
      refl,
      refl,
    )

pub header-Again :
    (b0 b1 : ℕ) (rest ys : List ℕ) (s h : Frame)
    → read_header (b0 ∷ b1 ∷ rest) s ≡ some (false, h)
    → Again (b1 / 128 % 2 == 1) b0 b1 rest ys s h
unfolding read_header
header-Again b0 b1 rest ys s h e =
    let (r, there, masked) =
      >>=-eq-some (read_length (b1 % 128) rest (begun b0 b1 s)) (read_mask (b1 / 128 % 2 == 1)) e in
    found-Again (b1 / 128 % 2 == 1) b0 b1 rest ys s h r there masked

key_ready :
    (xs : List ℕ) (s h : Frame)
    → take_key xs s ≡ some (true, h)
    → (h.header_ready ≡ true) × (h.buffer ≡ s.buffer)
unfolding take_key
key_ready [] s h e = cc
key_ready (a ∷ []) s h e = cc
key_ready (a ∷ b ∷ []) s h e = cc
key_ready (a ∷ b ∷ c ∷ []) s h e = cc
key_ready (a ∷ b ∷ c ∷ d ∷ rest) s h e = (
  ap (λ x. x.header_ready) (sym (ap (frame_of s) e)),
  ap (λ x. x.buffer) (sym (ap (frame_of s) e)),
)

mask_ready :
    (m : Bool) (r : Bool × Frame) (h : Frame)
    → read_mask m r ≡ some (true, h)
    → (h.header_ready ≡ true) × (h.buffer ≡ r.1.buffer)
unfolding read_mask
mask_ready m (false, s) h e = cc
mask_ready false (true, s) h e = (
  ap (λ x. x.header_ready) (sym (ap (frame_of s) e)),
  ap (λ x. x.buffer) (sym (ap (frame_of s) e)),
)
mask_ready true (true, s) h e = elim (Bool-cases (ltb (length s.buffer) (s.payload_start + 4))) [
  | inl short ↦ cc (rw short at e)
  | inr long ↦
      key_ready (drop s.payload_start s.buffer) (record s { mask_enable = true }) h (rw long at e)
]

length_ready :
    (m : Bool) (b0 b1 : ℕ) (rest : List ℕ) (s h : Frame) (r : Bool × Frame)
    → read_length (b1 % 128) rest (begun b0 b1 s) ≡ some r
    → read_mask m r ≡ some (true, h)
    → (h.header_ready ≡ true) × (h.buffer ≡ s.buffer)
unfolding read_mask
length_ready m b0 b1 rest s h (false, u) there masked = cc
length_ready m b0 b1 rest s h (true, u) there masked =
    let st : Settled (b1 % 128) rest (begun b0 b1 s) u =
      Settled_lem (b1 % 128) rest (begun b0 b1 s) u there in
    let r = mask_ready m (true, u) h masked in (r.0, r.1 ∙ ap (λ x. x.buffer) st.now)

pub header_ready_lem :
    (b0 b1 : ℕ) (rest : List ℕ) (s h : Frame)
    → read_header (b0 ∷ b1 ∷ rest) s ≡ some (true, h)
    → (h.header_ready ≡ true) × (h.buffer ≡ s.buffer)
unfolding read_header
header_ready_lem b0 b1 rest s h e =
    let (r, there, masked) =
      >>=-eq-some (read_length (b1 % 128) rest (begun b0 b1 s)) (read_mask (b1 / 128 % 2 == 1)) e in
    length_ready (b1 / 128 % 2 == 1) b0 b1 rest s h r there masked
