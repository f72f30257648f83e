-- ===== src/WebSocket/Stream.antt =====
-- Parse fed a frame in parts.
use cpp_streamer.Base.{ℕ, ◌/◌, ◌%◌}
use cpp_streamer.Base.{◌≡◌, refl, sym, ap, ◌∙◌, inl, inr, Bool, true, false}
use cpp_streamer.Base.{Option, some, List, [], ◌∷◌, ◌++◌, append_assoc, arith}
use cpp_streamer.Base.{ltb, ◌==◌, if◌then◌else◌, ◌>>=◌, Bool-cases, >>=-eq-some}
use cpp_streamer.Base.{length}
use mathlib.Core.Path.{subst}
use cpp_streamer.WebSocket.{Frame, read_header, read_payload, after_read, parse_held, parse}
use cpp_streamer.WebSocket.Parts.{header-plus, Again, header-Again, header_ready_lem}
use cpp_streamer.WebSocket.Lengths.{plus, frame_of, payload_waits}

two : (b0 b1 : ℕ) (rest : List ℕ) → ltb (length (b0 ∷ b1 ∷ rest)) 2 ≡ false
two b0 b1 rest = ground arith

-- Parse with a header to read, or with one that has been read.
parse_closed :
    (b0 b1 : ℕ) (rest : List ℕ) (s : Frame)
    → s.header_ready ≡ false
    → s.buffer ≡ b0 ∷ b1 ∷ rest
    → parse_held s ≡ (read_header (b0 ∷ b1 ∷ rest) s >>= after_read)
unfolding parse_held
parse_closed b0 b1 rest s closed e =
    let long : ltb (length s.buffer) 2 ≡ false = ap (λ b. ltb (length b) 2) e ∙ two b0 b1 rest in
    let tail : Option (ℕ × Frame) = read_header s.buffer s >>= after_read in
    ap (λ k. if k then some (1, s) else if s.header_ready then read_payload s else tail) long
    ∙ ap (λ k. if k then read_payload s else tail) closed
    ∙ ap (λ b. read_header b s >>= after_read) e

parse_open :
    (b0 b1 : ℕ) (rest : List ℕ) (s : Frame)
    → s.header_ready ≡ true
    → s.buffer ≡ b0 ∷ b1 ∷ rest
    → parse_held s ≡ read_payload s
unfolding parse_held
parse_open b0 b1 rest s ready e =
    let long : ltb (length s.buffer) 2 ≡ false = ap (λ b. ltb (length b) 2) e ∙ two b0 b1 rest in
    rw (long, ready) refl

waited_open :
    (b0 b1 : ℕ) (rest ys : List ℕ) (s t : Frame)
    → s.header_ready ≡ true
    → s.buffer ≡ b0 ∷ b1 ∷ rest
    → parse_held s ≡ some (1, t)
    → parse_held (plus ys t) ≡ parse_held (plus ys s)
waited_open b0 b1 rest ys s t ready eb e =
    let same : t ≡ s = payload_waits s t (sym (parse_open b0 b1 rest s ready eb) ∙ e) in
    ap (λ x. parse_held (plus ys x)) same

waited_after :
    (b0 b1 : ℕ) (rest ys : List ℕ) (s t : Frame) (r : Bool × Frame)
    → s.header_ready ≡ false
    → s.buffer ≡ b0 ∷ b1 ∷ rest
    → read_header (b0 ∷ b1 ∷ rest) s ≡ some r
    → after_read r ≡ some (1, t)
    → parse_held (plus ys t) ≡ parse_held (plus ys s)
unfolding after_read read_header
waited_after b0 b1 rest ys s t (false, h) closed eb e after =
    let same : h ≡ t = ap (frame_of h) after in
    let g : Again (b1 / 128 % 2 == 1) b0 b1 rest ys s h = header-Again b0 b1 rest ys s h e in
    subst (λ x. parse_held (plus ys x) ≡ parse_held (plus ys s)) same
      (parse_closed b0 b1 (rest ++ ys) (plus ys h) (g.1 ∙ closed) (ap (λ b. b ++ ys) (g.2 ∙ eb))
        ∙ ap (λ o. o >>= after_read) g.0
        ∙ sym (parse_closed b0 b1 (rest ++ ys) (plus ys s) closed (ap (λ b. b ++ ys) eb)))
waited_after b0 b1 rest ys s t (true, h) closed eb e after =
    let same : t ≡ h = payload_waits h t after in
    let g = header_ready_lem b0 b1 rest s h e in
    ap (λ x. parse_held (plus ys x)) same
    ∙ parse_open b0 b1 (rest ++ ys) (plus ys h) g.0 (ap (λ b. b ++ ys) (g.1 ∙ eb))
    ∙ sym (ap (λ o. o >>= after_read) (header-plus b0 b1 rest ys s h e))
    ∙ sym (parse_closed b0 b1 (rest ++ ys) (plus ys s) closed (ap (λ b. b ++ ys) eb))

waited_short : (s t : Frame) → ltb (length s.buffer) 2 ≡ true → parse_held s ≡ some (1, t) → t ≡ s
unfolding parse_held
waited_short s t short e = sym (ap (frame_of s) (rw short at e))

waited :
    (buffer ys : List ℕ) (s t : Frame)
    → s.buffer ≡ buffer
    → parse_held s ≡ some (1, t)
    → parse_held (plus ys t) ≡ parse_held (plus ys s)
waited [] ys s t eb e =
    ap (λ x. parse_held (plus ys x)) (waited_short s t (ap (λ b. ltb (length b) 2) eb) e)
waited (b ∷ []) ys s t eb e =
    ap (λ x. parse_held (plus ys x)) (waited_short s t (ap (λ l. ltb (length l) 2) eb) e)
waited (b0 ∷ b1 ∷ rest) ys s t eb e = elim (Bool-cases s.header_ready) [
  | inl ready ↦ waited_open b0 b1 rest ys s t ready eb e
  | inr closed ↦
      let (r, there, after) =
        >>=-eq-some (read_header (b0 ∷ b1 ∷ rest) s) after_read
          (sym (parse_closed b0 b1 rest s closed eb) ∙ e) in
      waited_after b0 b1 rest ys s t r closed eb there after
]

-- A frame may come in parts: if Parse asks for more after `xs`, then calling it again with `ys` gives
-- exactly what one call with `xs` and `ys` together would have given, in any state.
pub parse-append :
    (xs ys : List ℕ) (s t : Frame) → parse xs s ≡ some (1, t) → parse ys t ≡ parse (xs ++ ys) s
unfolding parse
parse-append xs ys s t e =
    waited (s.buffer ++ xs) ys (record s { buffer = s.buffer ++ xs }) t refl e
    ∙ ap (λ b. parse_held (record s { buffer = b })) (append_assoc s.buffer xs ys)
