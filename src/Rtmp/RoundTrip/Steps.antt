-- ===== src/Rtmp/RoundTrip/Steps.antt =====
-- src/net/rtmp: one call of ReadChunkStream on one chunk that WriteDataByChunkStream made.
use cpp_streamer.Base.{ℕ, ◌+◌, ◌-◌, ◌*◌, ◌%◌, ◌≤◌, ◌<◌, min}
use cpp_streamer.Base.{◌≡◌, refl, ap, ◌∙◌, true, false}
use cpp_streamer.Base.{some, List, ◌∷◌, ◌++◌, arith}
use cpp_streamer.Base.{length, length-append}
use cpp_streamer.Rtmp.Chunk.{
  ChunkStream, rtmp_ok, phase_payload, read_message_header, read_message_payload,
}
use cpp_streamer.Rtmp.Chunk.Steps.{header3, payload_lem, absorbed}
use cpp_streamer.Rtmp.Session.{
  Session, find_stream, put_stream, current_stream, store, after_payload, read_chunk_stream,
}
use cpp_streamer.Rtmp.Writer.{Message, chunk_of}
use cpp_streamer.Utils.ByteStream.{write3_bytes, write4_bytes}
use cpp_streamer.Rtmp.RoundTrip.Streams.{
  IsPlain, IsIdle, Holds, first_chunk, find-put, small_key, read_chunk_stream_by, header0_of, Ready,
  current_Ready,
}

-- The first chunk of a message.
pub read_first :
    (m : Message) (bytes piece rest : List ℕ) (s : Session)
    → IsPlain m bytes
    → IsIdle (find_stream m.csid s.cs_map)
    → s.fmt_ready ≡ false
    → length piece ≡ min s.chunk_size (length bytes)
    → s.recv ≡ chunk_of m 0 s.chunk_size (length bytes) piece ++ rest
    → (t : Session) × (read_chunk_stream s ≡ some (rtmp_ok, t))
      × Holds m (length bytes) piece t
      × (t.recv ≡ rest)
      × (t.chunk_size ≡ s.chunk_size)
unfolding after_payload store write3_bytes write4_bytes
read_first m bytes piece rest s v i ready h e =
    let total : ℕ = length bytes in
    let body : List ℕ =
      write3_bytes m.timestamp
      ++ write3_bytes total
      ++ m.type_id ∷ write4_bytes m.msg_stream_id
      ++ (piece ++ rest) in
    let t : Session = record s { recv = body; fmt = 0; csid = m.csid; fmt_ready = true } in
    let c : ChunkStream = current_stream t in
    let r : Ready s.chunk_size c = current_Ready t v.high i in
    let d : ChunkStream = record c {
      fmt = 0;
      csid = m.csid;
      timestamp32 = m.timestamp;
      timestamp_delta = 0;
      msg_len = total;
      type_id = m.type_id;
      msg_stream_id = m.msg_stream_id;
      remain = total;
      msg_count = 0;
      phase = phase_payload;
    } in
    let eh : read_message_header 0 m.csid c body ≡ some (rtmp_ok, d, piece ++ rest) =
      header0_of m total c (piece ++ rest) v.time v.stream v.size r.start in
    let recv : s.recv ≡ (0 * 64 + m.csid) ∷ body =
      e
      ∙ ap (λ l. l ++ rest) (first_chunk m s.chunk_size total piece v.high)
      ∙ ap (λ k. k ∷ body) (omega arith) in
    let er : read_chunk_stream s ≡ some (after_payload t (read_message_payload d (piece ++ rest))) =
      read_chunk_stream_by 0 m.csid s body (piece ++ rest) d (omega arith) v.low v.high ready recv
        eh in
    let ep : read_message_payload d (piece ++ rest) ≡ (rtmp_ok, absorbed piece d, rest) =
      payload_lem d piece rest refl (omega (arith, r.sized)) in
    (
      record t {
        recv = rest;
        cs_map = put_stream (m.csid % 256) (absorbed piece d) s.cs_map;
        fmt_ready = false;
      },
      er ∙ ap (λ r. some (after_payload t r)) ep,
      record {
        c = absorbed piece d;
        found =
            ap (λ k. find_stream m.csid (put_stream k (absorbed piece d) s.cs_map))
              (small_key m.csid v.high)
            ∙ find-put m.csid (absorbed piece d) s.cs_map;
        between = refl;
        here = refl;
        phase = refl;
        plain = r.plain;
        content = ap (λ l. l ++ piece) r.empty;
        left = omega arith;
        whole = ground (arith, r.partial);
        time = refl;
        len = refl;
        type = refl;
        stream = refl;
      },
      refl,
      refl,
    )

pub current_found :
    (s : Session) (c : ChunkStream)
    → find_stream (s.csid % 256) s.cs_map ≡ some c
    → current_stream s ≡ record c { chunk_size = s.chunk_size }
unfolding current_stream
current_found s c e = ground arith

-- Each further chunk.
pub read_next :
    (m : Message) (total : ℕ) (got piece rest : List ℕ) (s : Session)
    → 2 ≤ m.csid
    → m.csid < 64
    → Holds m total got s
    → length got < total
    → length piece ≡ min s.chunk_size (total - length got)
    → s.recv ≡ (192 + m.csid) ∷ (piece ++ rest)
    → (t : Session) × (read_chunk_stream s ≡ some (rtmp_ok, t))
      × Holds m total (got ++ piece) t
      × (t.recv ≡ rest)
      × (t.chunk_size ≡ s.chunk_size)
unfolding after_payload store
read_next m total got piece rest s lo hi hs more h e =
    let t : Session = record s { recv = piece ++ rest; fmt = 3; csid = m.csid; fmt_ready = true } in
    let c : ChunkStream = record (hs.c) { chunk_size = s.chunk_size } in
    let ec : current_stream t ≡ c =
      current_found t hs.c (ap (λ k. find_stream k s.cs_map) (small_key m.csid hi) ∙ hs.found) in
    let d : ChunkStream = record c {
      fmt = 3;
      csid = m.csid;
      msg_count = 0;
      phase = phase_payload;
    } in
    let eh : read_message_header 3 m.csid (current_stream t) (piece ++ rest)
        ≡ some (rtmp_ok, d, piece ++ rest) =
      rw ec (header3 m.csid c (piece ++ rest) hs.phase (omega (arith, hs.left)) hs.plain) in
    let er : read_chunk_stream s ≡ some (after_payload t (read_message_payload d (piece ++ rest))) =
      read_chunk_stream_by 3 m.csid s (piece ++ rest) (piece ++ rest) d (omega arith) lo hi
        hs.between e eh in
    let ep : read_message_payload d (piece ++ rest) ≡ (rtmp_ok, absorbed piece d, rest) =
      payload_lem d piece rest refl (omega (arith, hs.left)) in
    (
      record t {
        recv = rest;
        cs_map = put_stream (m.csid % 256) (absorbed piece d) s.cs_map;
        fmt_ready = false;
      },
      er ∙ ap (λ r. some (after_payload t r)) ep,
      record {
        c = absorbed piece d;
        found =
            ap (λ k. find_stream m.csid (put_stream k (absorbed piece d) s.cs_map))
              (small_key m.csid hi)
            ∙ find-put m.csid (absorbed piece d) s.cs_map;
        between = refl;
        here = refl;
        phase = refl;
        plain = hs.plain;
        content = ap (λ l. l ++ piece) hs.content;
        left = omega (arith, hs.left, length-append got piece);
        whole = ground (arith, hs.whole, hs.left);
        time = hs.time;
        len = hs.len;
        type = hs.type;
        stream = hs.stream;
      },
      refl,
      refl,
    )
