-- ===== src/Rtmp/RoundTrip/Rounds.antt =====
-- src/net/rtmp: the loop of calls of ReadChunkStream, from a chunk to the last one of its message.
use cpp_streamer.Base.{ℕ, zero, suc, ◌+◌, ◌*◌, ◌%◌, ◌≤◌, ◌<◌, min}
use cpp_streamer.Base.{◌≡◌, refl, sym, ap, ◌∙◌, true, false}
use cpp_streamer.Base.{some, List, [], ◌∷◌, ◌++◌, append_assoc, append-nil, arith}
use cpp_streamer.Base.{◌==◌}
use cpp_streamer.Base.{length, take, drop, length-append, length-take}
use cpp_streamer.Base.{take-append-drop, drop-append}
use cpp_streamer.Rtmp.Chunk.{rtmp_ok}
use cpp_streamer.Rtmp.Session.{
  Session, find_stream, current_stream, read_chunk_stream, is_ready, read_message,
}
use cpp_streamer.Rtmp.Writer.{Message, chunk_count, chunk_len, write_chunks}
use cpp_streamer.Rtmp.RoundTrip.Steps.{current_found, read_next}
use cpp_streamer.Rtmp.RoundTrip.Streams.{Holds, next_chunk, small_key}
use cpp_streamer.Rtmp.RoundTrip.Pieces.{Piece, Piece_lem}

-- The bytes of the chunks, as they arrive.
abbrev pub sent : List (List ℕ) → List ℕ
sent [] = []
sent (c ∷ cs) = c ++ sent cs

advance_done :
    (m : Message) (total fuel : ℕ) (got : List ℕ) (s t : Session)
    → m.csid < 64
    → read_chunk_stream s ≡ some (rtmp_ok, t)
    → Holds m total got t
    → length got ≡ total
    → read_message (suc fuel) s ≡ some (rtmp_ok, t)
unfolding read_message is_ready
advance_done m total fuel got s t h e ht full =
    let ec = current_found t ht.c (
      ap (λ k. find_stream (k % 256) t.cs_map) ht.here
      ∙ ap (λ k. find_stream k t.cs_map) (small_key m.csid h)
      ∙ ht.found) in
    let er : (current_stream t).chunk_ready ≡ true =
      ap (λ c. c.chunk_ready) ec ∙ ground (arith, ht.whole, ht.left) in
    ground (arith, e, er)

advance_more :
    (m : Message) (total fuel : ℕ) (got : List ℕ) (s t : Session)
    → m.csid < 64
    → read_chunk_stream s ≡ some (rtmp_ok, t)
    → Holds m total got t
    → length got < total
    → 0 < length t.recv
    → read_message (suc fuel) s ≡ read_message fuel t
unfolding read_message is_ready
advance_more m total fuel got s t h e ht part more =
    let ec = current_found t ht.c (
      ap (λ k. find_stream (k % 256) t.cs_map) ht.here
      ∙ ap (λ k. find_stream k t.cs_map) (small_key m.csid h)
      ∙ ht.found) in
    let er : (current_stream t).chunk_ready ≡ false =
      ap (λ c. c.chunk_ready) ec ∙ ground (arith, ht.whole, ht.left) in
    ground (arith, e, er)

-- The bytes of the chunks from a later round on.
sent_next :
    (rounds index size len : ℕ) (m : Message) (bytes left rest : List ℕ)
    → m.csid < 64
    → 0 < index
    → chunk_len size (length bytes) index ≡ len
    → drop (index * size) bytes ≡ left
    → sent (write_chunks m size bytes index (suc rounds)) ++ rest
      ≡ (192 + m.csid)
        ∷ (take len left ++ (sent (write_chunks m size bytes (suc index) rounds) ++ rest))
unfolding write_chunks
sent_next rounds index size len m bytes left rest hi inner el ed =
    let later : (index == 0) ≡ false = ground arith in
    rw (later, el, ed, next_chunk m size (length bytes) (take len left) hi)
      (ap (λ l. (192 + m.csid) ∷ l)
        (append_assoc (take len left) (sent (write_chunks m size bytes (suc index) rounds)) rest))

-- What a round needs and leaves: `got` of the message has arrived, `left` has not.
pub record Round (m : Message) (bytes rest : List ℕ) (size index rounds : ℕ) (got left : List ℕ)
    (s : Session) : Type 0 where
  pub sized : s.chunk_size ≡ size
  pub inner : 0 < index
  pub count : index + rounds ≡ chunk_count size (length bytes)
  pub cut : got ++ left ≡ bytes
  pub at : length got ≡ min (index * size) (length bytes)
  pub held : Holds m (length bytes) got s
  pub incoming : s.recv ≡ sent (write_chunks m size bytes index rounds) ++ rest

next_chunk_read :
    (rounds index size : ℕ) (m : Message) (bytes got left rest : List ℕ) (s : Session)
    → 2 ≤ m.csid
    → m.csid < 64
    → 0 < size
    → Round m bytes rest size index (suc rounds) got left s
    → (t : Session) × (read_chunk_stream s ≡ some (rtmp_ok, t))
      × Round m bytes rest size
          (suc index)
          rounds
          (got ++ take (min size (length left)) left)
          (drop (min size (length left)) left)
          t
next_chunk_read rounds index size m bytes got left rest s lo hi pos r =
    let p : Piece size (length bytes) index =
      Piece_lem size (length bytes) index pos (omega (arith, r.count)) in
    let sum : length got + length left ≡ length bytes =
      sym (length-append got left) ∙ ap length r.cut in
    let exact : length got ≡ index * size = omega (arith, r.at, p.more) in
    let n : ℕ = min size (length left) in
    let len : chunk_len size (length bytes) index ≡ n = omega (arith, p.len) in
    let piece : List ℕ = take n left in
    let long : length piece ≡ n = omega (arith, length-take n left) in
    let tail : List ℕ = sent (write_chunks m size bytes (suc index) rounds) ++ rest in
    let from : drop (index * size) bytes ≡ left =
      ap (drop (index * size)) (sym r.cut) ∙ drop-append (index * size) got left exact in
    let arriving : s.recv ≡ (192 + m.csid) ∷ (piece ++ tail) =
      r.incoming ∙ sent_next rounds index size n m bytes left rest hi r.inner len from in
    let (t, er, ht, et, es) =
      read_next m (length bytes) got piece tail s lo hi r.held (omega (arith, p.more))
        (omega (arith, long, r.sized)) arriving in
    (
      t,
      er,
      record {
        sized = es ∙ r.sized;
        inner = omega arith;
        count = omega (arith, r.count);
        cut =
            append_assoc got piece (drop n left)
            ∙ ap (λ l. got ++ l) (take-append-drop n left)
            ∙ r.cut;
        at = omega (arith, length-append got piece);
        held = ht;
        incoming = et;
      },
    )

nothing_left :
    (got left bytes : List ℕ) → got ++ left ≡ bytes → length got ≡ length bytes → got ≡ bytes
nothing_left got [] bytes e h = sym (append-nil got) ∙ e
nothing_left got (x ∷ left) bytes e h =
    absurd (omega (arith, ap length e, length-append got (x ∷ left)))

abbrev pub Whole : Message → List ℕ → List ℕ → ℕ → Session → Type 0
Whole m bytes rest fuel s =
    (t : Session) × (read_message fuel s ≡ some (rtmp_ok, t))
    × Holds m (length bytes) bytes t
    × (t.recv ≡ rest)

-- A read that leaves `rounds` more chunks to come.
pub read_on :
    (rounds k size fuel : ℕ) (m : Message) (bytes got left rest : List ℕ) (s t : Session)
    → 2 ≤ m.csid
    → m.csid < 64
    → 0 < size
    → 0 < length bytes
    → read_chunk_stream s ≡ some (rtmp_ok, t)
    → Round m bytes rest size (suc k) rounds got left t
    → rounds < fuel
    → Whole m bytes rest fuel s
unfolding write_chunks
read_on rounds k size zero m bytes got left rest s t lo hi pos some_bytes e r enough =
    absurd (omega arith)
read_on zero k size (suc fuel) m bytes got left rest s t lo hi pos some_bytes e r enough =
    let p : Piece size (length bytes) k =
      Piece_lem size (length bytes) k pos (omega (arith, r.count)) in
    let full : length got ≡ length bytes = omega (arith, r.at, p.last (omega (arith, r.count))) in
    let all : got ≡ bytes = nothing_left got left bytes r.cut full in
    (t, advance_done m (length bytes) fuel got s t hi e r.held full, rw all at r.held, r.incoming)
read_on (suc rounds) k size (suc fuel) m bytes got left rest s t lo hi pos some_bytes e r enough =
    let p : Piece size (length bytes) k =
      Piece_lem size (length bytes) k pos (omega (arith, r.count)) in
    let part : length got < length bytes = omega (arith, r.at, p.inner (omega (arith, r.count))) in
    let coming : 0 < length t.recv = omega (
      arith,
      ap length (r.incoming ∙ sent_next rounds (suc k) size _ m bytes _ rest hi r.inner refl refl),
    ) in
    let (u, er, ru) = next_chunk_read rounds (suc k) size m bytes got left rest t lo hi pos r in
    let (w, ew, hw, rest_w) =
      read_on rounds (suc k) size fuel m bytes _ _ rest t u lo hi pos some_bytes er ru
        (omega arith) in
    (w, advance_more m (length bytes) fuel got s t hi e r.held part coming ∙ ew, hw, rest_w)
