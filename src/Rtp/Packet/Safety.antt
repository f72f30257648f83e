-- ===== src/Rtp/Packet/Safety.antt =====
-- src/net/rtprtcp/rtp_packet.cpp, Parse: what it reads is inside the buffer, its loops end, and what it
-- returns lies inside the packet.
use cpp_streamer.Base.{ℕ, ◌+◌, ◌-◌, ◌^◌, ◌≤◌, ◌<◌}
use cpp_streamer.Base.{◌≡◌, refl, inl, inr, Bool, true, false}
use cpp_streamer.Base.{Option, none, some, List, [], ◌∷◌, arith}
use cpp_streamer.Base.{ltb, leb, if◌then◌else◌, Bool-cases}
use cpp_streamer.Base.{length, take, All}
use cpp_streamer.Base.Outcome.{Outcome, done, throws, fault}
use cpp_streamer.Rtp.Packet.{RtpPacket, Header, onebyte_step, twobytes_step, parse_elements}
use cpp_streamer.Rtp.Packet.{
  get_ext_id, has_onebyte_ext, has_twobytes_ext, parse_ext_at, parse_ext, find_ext, find_padding,
  parse_body, parse, read_header, max_size,
}
use cpp_streamer.Rtp.Packet.Elements.{
  OnebyteFits, TwobytesFits, Safe, parse_elements-Safe, onebyte_step-RoundSafe,
  twobytes_step-RoundSafe,
}
use cpp_streamer.Rtp.Packet.Finding.{
  HeaderInside, Parsed, Safe->>=, read_inside, ExtFound, find_ext-Safe, find_padding-Safe,
}

pub chosen :
    {A : Type 0} (P : A → Type 0) (c d : Bool) (a b e : Outcome A)
    → Safe P a
    → Safe P b
    → Safe P e
    → Safe P (if c then a else if d then b else e)
chosen P true d a b e s t u = s
chosen P false true a b e s t u = t
chosen P false false a b e s t u = u

pub Safe-map :
    {A : Type 0} (P Q : A → Type 0) (o : Outcome A) → Safe P o → ((a : A) → P a → Q a) → Safe Q o
Safe-map P Q (done a) s f = f a s
Safe-map P Q throws s f = tt
Safe-map P Q fault s f = s

parse_ext_at-Safe :
    (n size len ext : ℕ) (p : RtpPacket)
    → Parsed n size p
    → ExtFound len p.body (some ext, p.payload)
    → len ≤ length p.body
    → len < 2 ^ 16
    → Safe (Parsed n size) (parse_ext_at ext p)
unfolding parse_ext_at get_ext_id
parse_ext_at-Safe n size len ext p sound (words, hw, hp, hl) le small =
    let (id, e) = read_inside ext p.body (omega arith) in
    let onebyte_ok =
      parse_elements-Safe OnebyteFits onebyte_step onebyte_step-RoundSafe ext words p.payload p.body
        hw (omega arith) hp (omega arith) in
    let twobytes_ok =
      parse_elements-Safe TwobytesFits twobytes_step twobytes_step-RoundSafe ext words p.payload
        p.body hw (omega arith) hp (omega arith) in
    rw e (
      chosen (Parsed n size) (has_onebyte_ext id) (has_twobytes_ext id) _ _ throws
        (Safe->>= (All (OnebyteFits (take p.payload p.body))) (Parsed n size)
          (parse_elements onebyte_step ext p.body) _ onebyte_ok
          (λ m a. record {
            covers = sound.covers;
            whole = sound.whole;
            held = sound.held;
            nonempty = sound.nonempty;
            ext_held = sound.ext_held;
            onebyte = a;
            twobytes = sound.twobytes;
          }))
        (Safe->>= (All (TwobytesFits (take p.payload p.body))) (Parsed n size)
          (parse_elements twobytes_step ext p.body) _ twobytes_ok
          (λ m a. record {
            covers = sound.covers;
            whole = sound.whole;
            held = sound.held;
            nonempty = sound.nonempty;
            ext_held = sound.ext_held;
            twobytes = a;
            onebyte = sound.onebyte;
          }))
        tt)

chosen_last :
    {A : Type 0} (P : A → Type 0) (c : Bool) (a : Outcome A) (b : A)
    → Safe P a
    → P b
    → Safe P (if c then a else done b)
chosen_last P true a b s t = s
chosen_last P false a b s t = t

parse_ext-Safe :
    (n size len : ℕ) (p : RtpPacket)
    → Parsed n size p
    → ExtFound len p.body (p.ext, p.payload)
    → len ≤ length p.body
    → len < 2 ^ 16
    → Safe (Parsed n size) (parse_ext p)
unfolding parse_ext
parse_ext-Safe n size len p sound ends le small =
    elim (p.ext)
        as (λ o.
          ExtFound len p.body (o, p.payload)
          → Safe (Parsed n size) (elim o [
            | none ↦ done p
            | some ext ↦ if p.header.extension then parse_ext_at ext p else done p
          ])) [
            | none ↦ λ e. sound
            | some ext ↦ λ e.
                chosen_last (Parsed n size) p.header.extension (parse_ext_at ext p) p
                  (parse_ext_at-Safe n size len ext p sound e le small) sound
          ]
      ends

ext_inside :
    (len : ℕ) (body : List ℕ) (o : Option ℕ) (payload : ℕ)
    → ExtFound len body (o, payload)
    → HeaderInside o payload
ext_inside len body none payload e = tt
ext_inside len body (some ext) payload (words, hw, hp, hl) = omega arith

parse_body-Safe :
    (h : Header) (len : ℕ) (body : List ℕ)
    → len ≤ length body
    → len < 2 ^ 16
    → Safe (Parsed (12 + len) (12 + length body)) (parse_body h len body)
unfolding parse_body
parse_body-Safe h len body le small =
    Safe->>= (ExtFound len body) _ (find_ext h len body) _ (find_ext-Safe h len body le) (λ r found.
      elim (Bool-cases (leb len r.1)) [
        | inl short ↦ rw short tt
        | inr enough ↦ rw enough (
            Safe->>= (λ s. (s.0 + s.1 ≡ len - r.1) × (0 < s.0))
              (Parsed (12 + len) (12 + length body)) (find_padding h len body (len - r.1)) _
              (find_padding-Safe h len body (len - r.1) le (ground arith) (omega arith))
              (λ s split.
                parse_ext-Safe (12 + len) (12 + length body) len _
                  (record {
                    covers = ground arith;
                    whole = refl;
                    held = refl;
                    nonempty = split.1;
                    ext_held = ext_inside len body (r.0) (r.1) found;
                    onebyte = tt;
                    twobytes = tt;
                  })
                  found le small))
      ])

header_inside :
    (bytes : List ℕ)
    → 12 ≤ length bytes
    → (h : Header) × (body : List ℕ) × (read_header bytes ≡ some (h, body))
      × (12 + length body ≡ length bytes)
unfolding read_header
header_inside [] le = absurd (omega arith)
header_inside (a ∷ []) le = absurd (omega arith)
header_inside (a ∷ b ∷ []) le = absurd (omega arith)
header_inside (a ∷ b ∷ c ∷ []) le = absurd (omega arith)
header_inside (a ∷ b ∷ c ∷ d ∷ []) le = absurd (omega arith)
header_inside (a ∷ b ∷ c ∷ d ∷ e ∷ []) le = absurd (omega arith)
header_inside (a ∷ b ∷ c ∷ d ∷ e ∷ f ∷ []) le = absurd (omega arith)
header_inside (a ∷ b ∷ c ∷ d ∷ e ∷ f ∷ g ∷ []) le = absurd (omega arith)
header_inside (a ∷ b ∷ c ∷ d ∷ e ∷ f ∷ g ∷ h ∷ []) le = absurd (omega arith)
header_inside (a ∷ b ∷ c ∷ d ∷ e ∷ f ∷ g ∷ h ∷ i ∷ []) le = absurd (omega arith)
header_inside (a ∷ b ∷ c ∷ d ∷ e ∷ f ∷ g ∷ h ∷ i ∷ j ∷ []) le = absurd (omega arith)
header_inside (a ∷ b ∷ c ∷ d ∷ e ∷ f ∷ g ∷ h ∷ i ∷ j ∷ k ∷ []) le = absurd (omega arith)
header_inside (a ∷ b ∷ c ∷ d ∷ e ∷ f ∷ g ∷ h ∷ i ∷ j ∷ k ∷ l ∷ body) le =
    (_, body, refl, omega arith)

-- Parse on `len` bytes of a buffer that is not empty and holds as many: it reads nothing outside the
-- buffer and its loops end. What it returns, if it does not throw, has a payload that is not empty, lengths
-- of header, payload and padding that add up to `len`, an extension whose first four bytes stand before the
-- payload, and only elements whose whole value lies before the payload.
pub parse-Safe :
    (len : ℕ) (bytes : List ℕ)
    → 0 < length bytes
    → len ≤ length bytes
    → Safe (Parsed len (length bytes)) (parse len bytes)
unfolding parse
parse-Safe len bytes h le = elim (Bool-cases (ltb max_size len)) [
  | inl large ↦ rw large tt
  | inr fits ↦ elim (Bool-cases (ltb len 12)) [
    | inl short ↦
        let held : leb (length bytes) 0 ≡ false = ground arith in rw (fits, held, short) tt
    | inr enough ↦
        let held : leb (length bytes) 0 ≡ false = ground arith in
        let (header, body, e, l) = header_inside bytes (ground arith) in
        let size : 12 + (len - 12) ≡ len = ground arith in
        let body_ok : Safe (Parsed len (length bytes)) (parse_body header (len - 12) body) =
          rw (size, l) at (parse_body-Safe header (len - 12) body (ground arith) (ground arith)) in
        rw (fits, held, enough, e) body_ok
  ]
]
