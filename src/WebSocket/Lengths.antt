-- ===== src/WebSocket/Lengths.antt =====
-- src/net/http/websocket/websocket_frame.cpp: the extended length of a frame whose header comes in parts.
use cpp_streamer.Base.{ℕ, ◌+◌, ◌≤◌}
use cpp_streamer.Base.{◌≡◌, refl, sym, ap, inl, inr, Bool, true, false}
use cpp_streamer.Base.{Option, none, some, List, [], ◌∷◌, ◌++◌, arith}
use cpp_streamer.Base.{ltb, ◌==◌, Bool-cases, >>=-eq-some}
use cpp_streamer.Base.{length}
use mathlib.Core.Path.{subst}
use cpp_streamer.WebSocket.{Frame, read_length, take_key, read_payload}
use cpp_streamer.Utils.ByteStream.{read2_bytes, read8_bytes}

-- More bytes behind the ones held.
abbrev pub plus : List ℕ → Frame → Frame
plus ys s = record s { buffer = s.buffer ++ ys }

abbrev pub with_mask : Bool → Frame → Frame
with_mask m s = record s { mask_enable = m }

abbrev pub frame_of : {A : Type 0} → Frame → Option (A × Frame) → Frame
frame_of s none = s
frame_of s (some (a, t)) = t

abbrev pub frames : (Frame → Frame) → Option (Bool × Frame) → Option (Bool × Frame)
frames f none = none
frames f (some (b, t)) = some (b, f t)

read2-append : (xs ys : List ℕ) (v : ℕ) → read2_bytes xs ≡ some v → read2_bytes (xs ++ ys) ≡ some v
unfolding read2_bytes
read2-append [] ys v e = cc
read2-append (a ∷ []) ys v e = cc
read2-append (a ∷ b ∷ rest) ys v e = e

read8-append : (xs ys : List ℕ) (v : ℕ) → read8_bytes xs ≡ some v → read8_bytes (xs ++ ys) ≡ some v
unfolding read8_bytes
read8-append [] ys v e = cc
read8-append (a ∷ []) ys v e = cc
read8-append (a ∷ b ∷ []) ys v e = cc
read8-append (a ∷ b ∷ c ∷ []) ys v e = cc
read8-append (a ∷ b ∷ c ∷ d ∷ []) ys v e = cc
read8-append (a ∷ b ∷ c ∷ d ∷ f ∷ []) ys v e = cc
read8-append (a ∷ b ∷ c ∷ d ∷ f ∷ g ∷ []) ys v e = cc
read8-append (a ∷ b ∷ c ∷ d ∷ f ∷ g ∷ h ∷ []) ys v e = cc
read8-append (a ∷ b ∷ c ∷ d ∷ f ∷ g ∷ h ∷ i ∷ rest) ys v e = e

pub still : (have total need : ℕ) → ltb have need ≡ false → have ≤ total → ltb total need ≡ false
still have total need h le = ground arith

-- The extended length, once read from `s`, is read from every state that holds more bytes.
pub record Settled (len : ℕ) (rest : List ℕ) (s t : Frame) : Type 0 where
  pub v : ℕ
  pub start : ℕ
  pub now : t ≡ record s { payload_len = v; payload_start = start }
  pub later :
      (ys : List ℕ) (u : Frame)
      → length s.buffer ≤ length u.buffer
      → u.payload_start ≡ s.payload_start
      → u.payload_len ≡ s.payload_len
      → read_length len (rest ++ ys) u
        ≡ some (true, record u { payload_len = v; payload_start = start })

Settled-eight :
    (rest : List ℕ) (s t : Frame)
    → read_length 127 rest s ≡ some (true, t)
    → ltb (length s.buffer) 10 ≡ false
    → Settled 127 rest s t
unfolding read_length
Settled-eight rest s t e long =
    let (v, there, same) =
      >>=-eq-some (read8_bytes rest)
        (λ ext_len.
          some (true, record s { payload_len = ext_len; payload_start = s.payload_start + 8 }))
        (rw long at e) in
    record {
      v = v;
      start = s.payload_start + 8;
      now = sym (ap (frame_of s) same);
      later = λ ys u more es ep.
          rw
            (
              still (length s.buffer) (length u.buffer) 10 long more,
              read8-append rest ys v there,
              es,
            )
            refl;
    }

Settled-two :
    (rest : List ℕ) (s t : Frame)
    → read_length 126 rest s ≡ some (true, t)
    → ltb (length s.buffer) 4 ≡ false
    → Settled 126 rest s t
unfolding read_length
Settled-two rest s t e long =
    let (v, there, same) =
      >>=-eq-some (read2_bytes rest)
        (λ ext_len.
          some (true, record s { payload_len = ext_len; payload_start = s.payload_start + 2 }))
        (rw long at e) in
    record {
      v = v;
      start = s.payload_start + 2;
      now = sym (ap (frame_of s) same);
      later = λ ys u more es ep.
          rw
            (
              still (length s.buffer) (length u.buffer) 4 long more,
              read2-append rest ys v there,
              es,
            )
            refl;
    }

-- While it is not there, nothing changes.
pub length_waits :
    (len : ℕ) (rest : List ℕ) (s t : Frame) → read_length len rest s ≡ some (false, t) → t ≡ s
unfolding read_length
length_waits len rest s t e = ground arith

pub take_key-append :
    (xs ys : List ℕ) (s t : Frame)
    → take_key xs s ≡ some (true, t)
    → take_key (xs ++ ys) (plus ys s) ≡ some (true, plus ys t)
unfolding take_key
take_key-append [] ys s t e = cc
take_key-append (a ∷ []) ys s t e = cc
take_key-append (a ∷ b ∷ []) ys s t e = cc
take_key-append (a ∷ b ∷ c ∷ []) ys s t e = cc
take_key-append (a ∷ b ∷ c ∷ d ∷ rest) ys s t e = ap (frames (plus ys)) e

pub payload_waits : (s t : Frame) → read_payload s ≡ some (1, t) → t ≡ s
unfolding read_payload
payload_waits s t e = ground arith

pub Settled_lem :
    (len : ℕ) (rest : List ℕ) (s t : Frame)
    → read_length len rest s ≡ some (true, t)
    → Settled len rest s t
unfolding read_length
Settled_lem len rest s t e = elim (Bool-cases (len == 127)) [
  | inl eight ↦
      let same : len ≡ 127 = ground arith in
      elim (Bool-cases (ltb (length s.buffer) 10)) [
        | inl short ↦ cc (rw (same, short, read_length) at e)
        | inr long ↦
            subst (λ n. Settled n rest s t) (sym same) (Settled-eight rest s t (rw same at e) long)
      ]
  | inr other ↦ elim (Bool-cases (len == 126)) [
    | inl two ↦
        let same : len ≡ 126 = ground arith in
        elim (Bool-cases (ltb (length s.buffer) 4)) [
          | inl short ↦ cc (rw (same, short, read_length) at e)
          | inr long ↦
              subst (λ n. Settled n rest s t) (sym same) (Settled-two rest s t (rw same at e) long)
        ]
    | inr neither ↦ record {
      v = s.payload_len;
      start = s.payload_start;
      now = sym (ap (frame_of s) (rw (other, neither, read_length) at e));
      later = λ ys u more es ep. rw (other, neither, read_length, sym es, sym ep) refl;
    }
  ]
]
