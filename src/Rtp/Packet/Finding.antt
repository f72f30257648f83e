-- ===== src/Rtp/Packet/Finding.antt =====
-- src/net/rtprtcp/rtp_packet.cpp, Parse: where the extension, the payload and the padding are found.
use cpp_streamer.Base.{ℕ, zero, suc, ◌+◌, ◌-◌, ◌*◌, ◌≤◌, ◌<◌}
use cpp_streamer.Base.{◌≡◌, refl, inl, inr, Bool, true, false}
use cpp_streamer.Base.{Option, none, some, List, [], ◌∷◌, arith}
use cpp_streamer.Base.{ltb, if◌then◌else◌, Bool-cases}
use cpp_streamer.Base.{length, get_elem?, take, drop, All}
use cpp_streamer.Base.Outcome.{Outcome, done, throws, fault, ◌>>=◌}
use cpp_streamer.Utils.ByteStream.{read2_bytes}
use cpp_streamer.Rtp.Packet.{RtpPacket, Header}
use cpp_streamer.Rtp.Packet.{find_ext, find_padding}
use cpp_streamer.Rtp.Packet.Elements.{OnebyteFits, TwobytesFits, Safe}

-- The extension's first four bytes stand before the payload.
abbrev pub HeaderInside : Option ℕ → ℕ → Type 0
HeaderInside none payload = Unit
HeaderInside (some ext) payload = ext + 4 ≤ payload

-- What Parse returns for `len` bytes of a buffer with `size` bytes.
pub record Parsed (len size : ℕ) (p : RtpPacket) : Type 0 where
  pub covers : 12 + p.payload + p.payload_len + p.pad_len ≡ len
  pub whole : p.data_len ≡ len
  pub held : 12 + length p.body ≡ size
  pub nonempty : 0 < p.payload_len
  pub ext_held : HeaderInside p.ext p.payload
  pub onebyte : All (OnebyteFits (take p.payload p.body)) p.onebyte_ext_map
  pub twobytes : All (TwobytesFits (take p.payload p.body)) p.twobytes_ext_map

pub Safe->>= :
    {A B : Type 0} (P : A → Type 0) (Q : B → Type 0) (o : Outcome A) (f : A → Outcome B)
    → Safe P o
    → ((a : A) → P a → Safe Q (f a))
    → Safe Q (o >>= f)
Safe->>= P Q (done a) f s ok = ok a s
Safe->>= P Q throws f s ok = tt
Safe->>= P Q fault f s ok = s

-- Two bytes inside the memory are read.
pub read_inside :
    (n : ℕ) (body : List ℕ) → n + 2 ≤ length body → (w : ℕ) × (read2_bytes (drop n body) ≡ some w)
unfolding read2_bytes
read_inside zero [] h = absurd (omega arith)
read_inside zero (a ∷ []) h = absurd (omega arith)
read_inside zero (a ∷ b ∷ rest) h = (a * 0x100 + b, refl)
read_inside (suc n) [] h = absurd (omega arith)
read_inside (suc n) (x ∷ body) h = read_inside n body (omega arith)

-- An extension found ends at the payload.
abbrev pub ExtFound : ℕ → List ℕ → Option ℕ × ℕ → Type 0
ExtFound len body (none, payload) = Unit
ExtFound len body (some ext, payload) =
    (words : ℕ) × (read2_bytes (drop (ext + 2) body) ≡ some words)
    × (ext + 4 + words * 4 ≡ payload)
    × (payload ≤ len)

pub found :
    (len : ℕ) (body : List ℕ) (p payload words : ℕ) (extension short : Bool)
    → read2_bytes (drop (p + 2) body) ≡ some words
    → p + 4 + words * 4 ≡ payload
    → (short ≡ false → payload ≤ len)
    → Safe
        (ExtFound len body)
        (if extension then (if short then throws else done (some p, payload)) else done (none, p))
found len body p payload words false short e q fits = tt
found len body p payload words true true e q fits = tt
found len body p payload words true false e q fits = (words, e, q, fits refl)

pub find_ext-Safe :
    (h : Header) (len : ℕ) (body : List ℕ)
    → len ≤ length body
    → Safe (ExtFound len body) (find_ext h len body)
unfolding find_ext
find_ext-Safe h len body l = elim (Bool-cases (ltb len (4 * h.csrc_count + 4))) [
  | inl short ↦ rw short (ground arith)
  | inr enough ↦
      let (words, e) = read_inside (4 * h.csrc_count + 2) body (ground arith) in
      let fits : ltb len (4 * h.csrc_count + 4 + words * 4) ≡ false
          → 4 * h.csrc_count + 4 + words * 4 ≤ len =
        λ q. ground arith in
      rw (enough, e)
        (found len body (4 * h.csrc_count) (4 * h.csrc_count + 4 + words * 4) words h.extension _ e
          refl fits)
]

byte_inside : (n : ℕ) (body : List ℕ) → n < length body → (b : ℕ) × (get_elem? body n ≡ some b)
byte_inside n [] h = absurd (omega arith)
byte_inside zero (x ∷ body) h = (x, refl)
byte_inside (suc n) (x ∷ body) h = byte_inside n body (omega arith)

pub find_padding-Safe :
    (h : Header) (len : ℕ) (body : List ℕ) (n : ℕ)
    → len ≤ length body
    → 0 < n
    → n ≤ len
    → Safe (λ r. (r.0 + r.1 ≡ n) × (0 < r.0)) (find_padding h len body n)
unfolding find_padding
find_padding-Safe h len body n l h0 hn =
    let (pad, e) = byte_inside (len - 1) body (omega arith) in rw e (ground arith)
