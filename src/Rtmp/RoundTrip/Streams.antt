-- ===== src/Rtmp/RoundTrip/Streams.antt =====
-- src/net/rtmp: the headers of a chunk that was written, and the chunk stream that takes it in.
use cpp_streamer.Base.{ℕ, zero, suc, ◌+◌, ◌*◌, ◌/◌, ◌%◌, ◌^◌, ◌≤◌, ◌<◌, bit_and, bit_or}
use cpp_streamer.Base.{◌≡◌, refl, ap, ◌∙◌, true, false}
use cpp_streamer.Base.{Option, none, some, List, [], ◌∷◌, ◌++◌, arith}
use cpp_streamer.Base.{◌==◌, if◌then◌else◌, lt→ltb}
use cpp_streamer.Base.{length}
use cpp_streamer.Base.Bits.{agree_below, agree_below→eq}
use cpp_streamer.Rtmp.Chunk.{
  ChunkStream, rtmp_ok, phase_header, phase_payload, new_chunk_stream, read_message_header,
  read_message_payload,
}
use cpp_streamer.Rtmp.Chunk.Steps.{header0}
use cpp_streamer.Rtmp.Session.{
  Session, read_csid, read_fmt_csid, find_stream, put_stream, current_stream, after_payload,
  after_header, after_basic, read_ready, read_chunk_stream,
}
use cpp_streamer.Rtmp.Writer.{Message, gen_basic_header, gen_message_header, gen_data, chunk_of}
use cpp_streamer.Utils.ByteStream.{write3_bytes, write4_bytes}

-- What WriteDataByChunkStream can carry: an id of one byte, a timestamp that needs no extended field,
-- and fields that fit.
pub record IsPlain (m : Message) (bytes : List ℕ) : Type 0 where
  pub low : 2 ≤ m.csid
  pub high : m.csid < 64
  pub time : m.timestamp < 0xffffff
  pub type : m.type_id < 256
  pub stream : m.msg_stream_id < 2 ^ 32
  pub size : length bytes < 2 ^ 24

-- A chunk stream between two messages.
abbrev pub IsIdle : Option ChunkStream → Type 0
IsIdle none = Unit {0}
IsIdle (some c) =
    (c.phase ≡ phase_header)
    × (c.chunk_data ≡ [])
    × (c.ext_ts_flag ≡ false)
    × (c.chunk_ready ≡ false)

-- The session holds, under the message's id, a stream that has received `got` of its bytes.
pub record Holds (m : Message) (total : ℕ) (got : List ℕ) (s : Session) : Type 0 where
  pub c : ChunkStream
  pub found : find_stream m.csid s.cs_map ≡ some c
  pub between : s.fmt_ready ≡ false
  pub here : s.csid ≡ m.csid
  pub phase : c.phase ≡ phase_header
  pub plain : c.ext_ts_flag ≡ false
  pub content : c.chunk_data ≡ got
  pub left : c.remain + length got ≡ total
  pub whole : c.chunk_ready ≡ (c.remain == 0)
  pub time : c.timestamp32 ≡ m.timestamp
  pub len : c.msg_len ≡ total
  pub type : c.type_id ≡ m.type_id
  pub stream : c.msg_stream_id ≡ m.msg_stream_id

one_byte0 : (c : ℕ) → c < 64 → bit_or (0 * 64) (bit_and c 0x3f) % 256 ≡ c
unfolding agree_below
one_byte0 = agree_below→eq _ _ 64 refl

one_byte3 : (c : ℕ) → c < 64 → bit_or (3 * 64) (bit_and c 0x3f) % 256 ≡ 192 + c
unfolding agree_below
one_byte3 = agree_below→eq _ _ 64 refl

basic_header0 : (c : ℕ) → c < 64 → gen_basic_header 0 c ≡ some (c ∷ [])
unfolding gen_basic_header
basic_header0 c h = rw (lt→ltb c 64 h, one_byte0 c h)

basic_header3 : (c : ℕ) → c < 64 → gen_basic_header 3 c ≡ some ((192 + c) ∷ [])
unfolding gen_basic_header
basic_header3 c h = rw (lt→ltb c 64 h, one_byte3 c h)

pub first_chunk :
    (m : Message) (size total : ℕ) (bytes : List ℕ)
    → m.csid < 64
    → chunk_of m 0 size total bytes
      ≡ m.csid
        ∷ (write3_bytes m.timestamp
            ++ write3_bytes total
            ++ m.type_id ∷ write4_bytes m.msg_stream_id
            ++ bytes)
unfolding chunk_of gen_data new_chunk_stream gen_message_header write3_bytes write4_bytes
first_chunk m size total bytes h = rw (basic_header0 m.csid h, chunk_of)

pub next_chunk :
    (m : Message) (size total : ℕ) (bytes : List ℕ)
    → m.csid < 64
    → chunk_of m 3 size total bytes ≡ (192 + m.csid) ∷ bytes
unfolding chunk_of gen_data new_chunk_stream gen_message_header
next_chunk m size total bytes h = rw (basic_header3 m.csid h, chunk_of)

pub read_csid_one :
    (n : ℕ) (rest : List ℕ) (s : Session) → 2 ≤ n → read_csid n rest s ≡ (rtmp_ok, s)
unfolding read_csid
read_csid_one zero rest s h = absurd (omega arith)
read_csid_one (suc zero) rest s h = absurd (omega arith)
read_csid_one (suc (suc n)) [] s h = refl
read_csid_one (suc (suc n)) (b ∷ rest) s h = refl

read_fmt_csid_one :
    (fmt csid : ℕ) (rest : List ℕ) (s : Session)
    → fmt < 4
    → 2 ≤ csid
    → csid < 64
    → s.recv ≡ (fmt * 64 + csid) ∷ rest
    → read_fmt_csid s ≡ (rtmp_ok, record s { recv = rest; fmt = fmt; csid = csid })
unfolding read_fmt_csid
read_fmt_csid_one fmt csid rest s hf lo hi e =
    let ec : (fmt * 64 + csid) % 64 ≡ csid = omega arith in
    let ef : (fmt * 64 + csid) / 64 % 4 ≡ fmt = omega arith in
    rw (e, ec, ef, read_csid_one csid rest _ lo)

pub find-put :
    (k : ℕ) (c : ChunkStream) (m : List (ℕ × ChunkStream))
    → find_stream k (put_stream k c m) ≡ some c
unfolding find_stream put_stream
find-put k c [] = ground arith
find-put k c ((j, d) ∷ m) = ground (arith, find-put k c m)

three_bytes :
    (v : ℕ) → v < 2 ^ 24 → v / 0x10000 % 256 * 0x10000 + v / 0x100 % 256 * 0x100 + v / 1 % 256 ≡ v
three_bytes v h = omega arith

four_bytes :
    (v : ℕ)
    → v < 2 ^ 32
    → v / 0x1000000 % 256 * 0x1000000
        + v / 0x10000 % 256 * 0x10000
        + v / 0x100 % 256 * 0x100
        + v / 1 % 256
      ≡ v
four_bytes v h = omega arith

-- The key of a small id is the id.
pub small_key : (k : ℕ) → k < 64 → k % 256 ≡ k
small_key k h = omega arith

-- ReadChunkStream, once the basic header and the message header have been read.
pub read_chunk_stream_by :
    (fmt csid : ℕ) (s : Session) (rest after : List ℕ) (d : ChunkStream)
    → fmt < 4
    → 2 ≤ csid
    → csid < 64
    → s.fmt_ready ≡ false
    → s.recv ≡ (fmt * 64 + csid) ∷ rest
    → (let t = record s { recv = rest; fmt = fmt; csid = csid; fmt_ready = true } in
        read_message_header fmt csid (current_stream t) rest ≡ some (rtmp_ok, d, after)
        → read_chunk_stream s ≡ some (after_payload t (read_message_payload d after)))
unfolding read_chunk_stream after_basic read_ready after_header
read_chunk_stream_by fmt csid s rest after d hf lo hi ready e h =
    ap (λ b. if b then read_ready s else after_basic (read_fmt_csid s)) ready
    ∙ ap after_basic (read_fmt_csid_one fmt csid rest s hf lo hi e)
    ∙ rw h

pub header0_of :
    (m : Message) (total : ℕ) (c : ChunkStream) (rest : List ℕ)
    → m.timestamp < 0xffffff
    → m.msg_stream_id < 2 ^ 32
    → total < 2 ^ 24
    → c.phase ≡ phase_header
    → read_message_header 0 m.csid c (
        write3_bytes m.timestamp
        ++ write3_bytes total
        ++ m.type_id ∷ write4_bytes m.msg_stream_id
        ++ rest)
      ≡ some (
        rtmp_ok,
        record c {
          fmt = 0;
          csid = m.csid;
          timestamp32 = m.timestamp;
          timestamp_delta = 0;
          msg_len = total;
          type_id = m.type_id;
          msg_stream_id = m.msg_stream_id;
          remain = total;
          msg_count = 0;
          phase = phase_payload;
        },
        rest,
      )
unfolding write3_bytes write4_bytes
header0_of m total c rest ht hs hl hp =
    header0 m.csid _ _ _ _ _ _ m.type_id _ _ _ _ c rest hp (omega arith)
    ∙ rw
        (three_bytes m.timestamp (omega arith), three_bytes total hl, four_bytes m.msg_stream_id hs)

-- The stream that the next chunk goes to, when nothing is under way.
pub record Ready (size : ℕ) (c : ChunkStream) : Type 0 where
  pub start : c.phase ≡ phase_header
  pub empty : c.chunk_data ≡ []
  pub plain : c.ext_ts_flag ≡ false
  pub partial : c.chunk_ready ≡ false
  pub sized : c.chunk_size ≡ size

current_Ready_of :
    (o : Option ChunkStream) (s : Session)
    → IsIdle o
    → find_stream (s.csid % 256) s.cs_map ≡ o
    → Ready s.chunk_size (current_stream s)
unfolding current_stream new_chunk_stream
current_Ready_of none s h e = ground arith
current_Ready_of (some c) s h e = ground arith

pub current_Ready :
    (s : Session)
    → s.csid < 64
    → IsIdle (find_stream s.csid s.cs_map)
    → Ready s.chunk_size (current_stream s)
current_Ready s h i =
    current_Ready_of (find_stream s.csid s.cs_map) s i
      (ap (λ k. find_stream k s.cs_map) (small_key s.csid h))
