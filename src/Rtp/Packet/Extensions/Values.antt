-- ===== src/Rtp/Packet/Extensions/Values.antt =====
-- src/net/rtprtcp/rtp_packet.cpp, GetExtension on a packet that Parse returned.
use cpp_streamer.Base.{ℕ, zero, suc, ◌+◌, ◌≤◌, ◌<◌}
use cpp_streamer.Base.{◌≡◌, sym, inl, inr}
use cpp_streamer.Base.{Option, none, some, List, [], ◌∷◌, arith}
use cpp_streamer.Base.{◌==◌, if◌then◌else◌, Bool-cases, Option-cases}
use cpp_streamer.Base.{length, get_elem?, take, All, length-take}
use cpp_streamer.Base.Outcome.{done}
use cpp_streamer.Rtp.Packet.{RtpPacket}
use cpp_streamer.Rtp.Packet.{get_ext_id, has_onebyte_ext, has_twobytes_ext, parse}
use cpp_streamer.Rtp.Packet.Elements.{OnebyteFits, TwobytesFits, Safe}
use cpp_streamer.Rtp.Packet.Safety.{parse-Safe, chosen, Safe-map}
use cpp_streamer.Rtp.Packet.Finding.{Parsed, Safe->>=, read_inside, HeaderInside}
use cpp_streamer.Rtp.Packet.Extensions.{get_extension, find_element}

-- A value found is not empty and lies before the payload.
abbrev pub ValueInside : RtpPacket → Option (ℕ × ℕ) → Type 0
ValueInside p none = Unit
ValueInside p (some (value, len)) = (0 < len) × (value + len ≤ p.payload)

find_element-All :
    (P : ℕ × ℕ → Type 0) (id : ℕ) (m : List (ℕ × ℕ))
    → All P m
    → (at : ℕ) → find_element id m ≡ some at
    → (k : ℕ) × P (k, at)
unfolding find_element
find_element-All P id [] a at e = absurd (ground arith)
find_element-All P id ((k, q) ∷ m) (a, rest) at e = elim (Bool-cases (k == id)) [
  | inl same ↦
      let e' : some q ≡ some at = rw same at e in
      let qe : q ≡ at = ground arith in (k, rw (sym qe) a)
  | inr other ↦
      let e' : find_element id m ≡ some at = rw other at e in find_element-All P id m rest at e'
]

get_elem?-take :
    (n i b : ℕ) (xs : List ℕ) → get_elem? (take n xs) i ≡ some b → get_elem? xs i ≡ some b
get_elem?-take zero i b xs e = absurd (ground arith)
get_elem?-take (suc n) i b [] e = e
get_elem?-take (suc n) zero b (x ∷ xs) e = e
get_elem?-take (suc n) (suc i) b (x ∷ xs) e = get_elem?-take n i b xs e

get_ext_id-Safe :
    (o : Option ℕ) (payload : ℕ) (body : List ℕ)
    → HeaderInside o payload
    → payload ≤ length body
    → Safe (λ id. Unit {0}) (get_ext_id o body)
unfolding get_ext_id
get_ext_id-Safe none payload body h l = tt
get_ext_id-Safe (some ext) payload body h l =
    let (w, e) = read_inside ext body (omega arith) in rw e tt

value_inside :
    (p : RtpPacket) (at len : ℕ)
    → at + 2 + len ≤ p.payload
    → ValueInside p (if len == 0 then none else some (at + 2, len))
value_inside p at zero l = tt
value_inside p at (suc len) l = ground arith

get_extension-Safe :
    (n size id : ℕ) (p : RtpPacket)
    → Parsed n size p
    → n ≤ size
    → Safe (ValueInside p) (get_extension id p)
unfolding get_extension
get_extension-Safe n size id p sound le =
    Safe->>= (λ id. Unit {0}) (ValueInside p) (get_ext_id p.ext p.body) _
      (get_ext_id-Safe p.ext p.payload p.body sound.ext_held (omega arith))
      (λ ext_id u.
        chosen (ValueInside p) (has_onebyte_ext ext_id) (has_twobytes_ext ext_id) _ _ (done none)
          (elim (Option-cases (find_element id p.onebyte_ext_map)) [
            | inl missing ↦ rw missing tt
            | inr (at, e) ↦
                let (k, (b, g, l)) =
                  find_element-All (OnebyteFits (take p.payload p.body)) id p.onebyte_ext_map
                    sound.onebyte at e in
                rw (e, get_elem?-take p.payload at b p.body g)
                  (omega arith, omega (arith, length-take p.payload p.body))
          ])
          (elim (Option-cases (find_element id p.twobytes_ext_map)) [
            | inl missing ↦ rw missing tt
            | inr (at, e) ↦
                let (k, (len, g, l)) =
                  find_element-All (TwobytesFits (take p.payload p.body)) id p.twobytes_ext_map
                    sound.twobytes at e in
                rw (e, get_elem?-take p.payload (at + 1) len p.body g)
                  (value_inside p at len (omega (arith, length-take p.payload p.body)))
          ])
          tt)

-- GetExtension of any id on what Parse returns for `len` bytes of a buffer that is not empty and holds as
-- many: it reads nothing outside the buffer, and a value that it returns is not empty and lies before the
-- payload.
pub get_extension-parse :
    (len : ℕ) (bytes : List ℕ) (id : ℕ)
    → 0 < length bytes
    → len ≤ length bytes
    → Safe (λ p. Safe (ValueInside p) (get_extension id p)) (parse len bytes)
get_extension-parse len bytes id h le =
    Safe-map (Parsed len (length bytes)) _ (parse len bytes) (parse-Safe len bytes h le)
      (λ p sound. get_extension-Safe len (length bytes) id p sound le)
