-- ===== src/Rtmp/RoundTrip.antt =====
-- A message cut up by WriteDataByChunkStream is put together again by ReadChunkStream.
pub mod Streams
pub mod Pieces
pub mod Rounds
pub mod Steps
use cpp_streamer.Base.{
  ℕ, zero, suc, ◌+◌, ◌-◌, ◌*◌, ◌/◌, ◌%◌, ◌^◌, ◌≤◌, ◌<◌, min, bit_and, bit_or, bit_xor,
}
use cpp_streamer.Base.{
  ◌≡◌, refl, sym, ap, ◌∙◌, ◌≢◌, ◌⊎◌, inl, inr, Bool, true, false, not, ◌&&◌, ◌||◌,
}
use cpp_streamer.Base.{
  Option, none, some, List, [], ◌∷◌, ◌++◌, map, append_assoc, append-nil, arith,
}
use cpp_streamer.Base.{
  ltb, leb, ◌==◌, if◌then◌else◌, ◌>>=◌, ltb→lt, lt→ltb, leb→le, Bool-cases, IsByte,
}
use cpp_streamer.Base.{length, get_elem?, take, drop, All, length-append, length-take, length-drop}
use cpp_streamer.Base.{take-append-drop, take-append, drop-append, take-all, drop-drop, All-append}
use cpp_streamer.Rtmp.Chunk.{rtmp_ok, ChunkStream}
use cpp_streamer.Rtmp.Session.{
  Session, find_stream, current_stream, read_chunk_stream, is_ready, read_message,
}
use cpp_streamer.Rtmp.Writer.{
  Message, chunk_of, chunk_count, chunk_len, write_chunks, write_data_by_chunk_stream,
}
use cpp_streamer.Rtmp.RoundTrip.Steps.{current_found, read_first, read_next}
use cpp_streamer.Rtmp.RoundTrip.Streams.{IsPlain, IsIdle, Holds, first_chunk, next_chunk, small_key}
use native.Mathlib.Nat.{div-add-mod, mod-lt}
use cpp_streamer.Rtmp.RoundTrip.Rounds.{sent, Whole, read_on}
use cpp_streamer.Rtmp.RoundTrip.Pieces.{mul_mono, Piece, Piece_lem}

count_pos : (size total : ℕ) → 0 < size → 0 < total → 0 < chunk_count size total
unfolding chunk_count
count_pos size total hs ht = ground (arith, div-add-mod total size, mul_mono (total / size) 0 size)

sent_first :
    (rounds size : ℕ) (m : Message) (bytes rest : List ℕ)
    → sent (write_chunks m size bytes 0 (suc rounds)) ++ rest
      ≡ chunk_of m 0 size (length bytes) (take (chunk_len size (length bytes) 0) bytes)
        ++ (sent (write_chunks m size bytes 1 rounds) ++ rest)
unfolding write_chunks
sent_first rounds size m bytes rest =
    let none_before : 0 * size ≡ 0 = omega arith in
    let start : drop (0 * size) bytes ≡ bytes = ap (λ i. drop i bytes) none_before in
    append_assoc
      (chunk_of m 0 size (length bytes)
        (take (chunk_len size (length bytes) 0) (drop (0 * size) bytes)))
      (sent (write_chunks m size bytes 1 rounds)) rest
    ∙ rw start

all_chunks_read :
    (rounds fuel : ℕ) (m : Message) (bytes rest : List ℕ) (s : Session)
    → IsPlain m bytes
    → 0 < length bytes
    → 0 < s.chunk_size
    → suc rounds ≡ chunk_count s.chunk_size (length bytes)
    → s.fmt_ready ≡ false
    → IsIdle (find_stream m.csid s.cs_map)
    → s.recv ≡ sent (write_chunks m s.chunk_size bytes 0 (suc rounds)) ++ rest
    → rounds < fuel
    → Whole m bytes rest fuel s
all_chunks_read rounds fuel m bytes rest s v some_bytes pos count ready idle incoming enough =
    let size : ℕ = s.chunk_size in
    let p : Piece size (length bytes) 0 = Piece_lem size (length bytes) 0 pos (omega arith) in
    let n : ℕ = chunk_len size (length bytes) 0 in
    let short : length (take n bytes) ≡ min size (length bytes) =
      omega (arith, p.len, length-take n bytes) in
    let (t, er, ht, et, es) =
      read_first m bytes (take n bytes) (sent (write_chunks m size bytes 1 rounds) ++ rest) s v idle
        ready short (incoming ∙ sent_first rounds size m bytes rest) in
    read_on rounds 0 size fuel m bytes (take n bytes) (drop n bytes) rest s t v.low v.high pos
      some_bytes er
      (record {
        sized = es;
        inner = omega arith;
        count = omega arith;
        cut = take-append-drop n bytes;
        at = omega arith;
        held = ht;
        incoming = et;
      })
      enough

count-le : (size total : ℕ) → 0 < size → chunk_count size total ≤ total
unfolding chunk_count
count-le size total hs = ground (arith, div-add-mod total size, mul_mono 1 size (total / size))

-- The session has taken in the whole message and nothing behind it.
pub record Delivered (m : Message) (bytes rest : List ℕ) (s : Session) : Type 0 where
  pub c : ChunkStream
  pub found : find_stream m.csid s.cs_map ≡ some c
  pub ready : c.chunk_ready ≡ true
  pub content : c.chunk_data ≡ bytes
  pub time : c.timestamp32 ≡ m.timestamp
  pub len : c.msg_len ≡ length bytes
  pub type : c.type_id ≡ m.type_id
  pub stream : c.msg_stream_id ≡ m.msg_stream_id
  pub behind : s.recv ≡ rest

-- Let a message that is not empty and shorter than 2^24 have a chunk stream id from 2 to 63, a
-- timestamp below 0xffffff, and a type and stream id that fit their fields. WriteDataByChunkStream, with
-- any chunk size above 0, cuts it into chunks. Take a session with that chunk size, between two chunks,
-- that has no stream for that id or one that was reset and has met no extended timestamp. With those
-- chunks and then `rest` received, it reads in at most as many calls of ReadChunkStream as the message
-- has bytes exactly this message: its payload, timestamp, length, type and stream id, and `rest` is left
-- in the buffer.
pub read_message-write :
    (m : Message) (bytes rest : List ℕ) (s : Session) (fuel : ℕ)
    → IsPlain m bytes
    → 0 < length bytes
    → 0 < s.chunk_size
    → s.fmt_ready ≡ false
    → IsIdle (find_stream m.csid s.cs_map)
    → length bytes ≤ fuel
    → (chunks : List (List ℕ)) × (write_data_by_chunk_stream m s.chunk_size bytes ≡ some chunks)
      × ((t : Session) × (read_message fuel (record s { recv = sent chunks ++ rest })
            ≡ some (rtmp_ok, t))
          × Delivered m bytes rest t)
unfolding write_data_by_chunk_stream
read_message-write m bytes rest s fuel v some_bytes pos between idle enough =
    let n : ℕ = chunk_count s.chunk_size (length bytes) in
    let chunks : List (List ℕ) = write_chunks m s.chunk_size bytes 0 n in
    let few : n ≤ length bytes = count-le s.chunk_size (length bytes) pos in
    let one : suc (n - 1) ≡ n =
      omega (arith, count_pos s.chunk_size (length bytes) pos some_bytes) in
    let (t, e, ht, et) =
      all_chunks_read (n - 1) fuel m bytes rest (record s { recv = sent chunks ++ rest }) v
        some_bytes pos one between idle
        (ap (λ k. sent (write_chunks m s.chunk_size bytes 0 k) ++ rest) (sym one))
        (omega (arith, few, one)) in
    (
      chunks,
      ground arith,
      (
        t,
        e,
        record {
          c = ht.c;
          found = ht.found;
          ready = ground (arith, ht.whole, ht.left);
          content = ht.content;
          time = ht.time;
          len = ht.len;
          type = ht.type;
          stream = ht.stream;
          behind = et;
        },
      ),
    )
