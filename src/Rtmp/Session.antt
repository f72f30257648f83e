-- ===== src/Rtmp/Session.antt =====
-- src/net/rtmp/rtmp_session_base.cpp: the basic header and the chunk streams of a session, and the
-- loop of rtmp_client_session.cpp that reads chunks until a message is whole.
-- `cs_map` is the map from the low 8 bits of a chunk stream id, its key type, to the stream; a
-- stream handed out by pointer is the entry of the map.
use cpp_streamer.Base.{ℕ, zero, suc, ◌+◌, ◌/◌, ◌%◌, ◌==◌, if◌then◌else◌, ◌>>=◌}
use cpp_streamer.Base.{Bool, true, false, Option, none, some, List, [], ◌∷◌, length, ltb}
use cpp_streamer.Rtmp.Chunk.{Code, rtmp_ok, rtmp_need_read_more, ChunkStream}
use cpp_streamer.Rtmp.Chunk.{new_chunk_stream, read_message_header, read_message_payload}

pub record Session : Type 0 where
  pub recv : List ℕ
  pub fmt_ready : Bool
  pub fmt : ℕ
  pub csid : ℕ
  pub cs_map : List (ℕ × ChunkStream)
  pub chunk_size : ℕ

-- After the first byte. `csid_ = 64 + *p` and `csid_ = 64; csid_ += *p++; csid_ += *p`.
unfoldable pub read_csid : ℕ → List ℕ → Session → Code × Session
read_csid zero [] s = (rtmp_need_read_more, s)
read_csid zero (b ∷ rest) s = (rtmp_ok, record s { recv = rest; csid = 64 + b })
read_csid (suc zero) (a ∷ b ∷ rest) s = (rtmp_ok, record s { recv = rest; csid = 64 + a + b })
read_csid (suc zero) short s = (rtmp_need_read_more, s)
read_csid low short s = (rtmp_ok, s)

basic_header : List ℕ → Session → Code × Session
unfolding read_csid
basic_header [] s = (rtmp_need_read_more, s)
basic_header (b ∷ rest) s =
    read_csid (b % 64) rest (record s { recv = rest; fmt = b / 64 % 4; csid = b % 64 })

unfoldable pub read_fmt_csid : Session → Code × Session
unfolding basic_header
read_fmt_csid s = basic_header s.recv s

unfoldable pub find_stream : ℕ → List (ℕ × ChunkStream) → Option ChunkStream
find_stream k [] = none
find_stream k ((j, c) ∷ m) = if j == k then some c else find_stream k m

unfoldable pub put_stream : ℕ → ChunkStream → List (ℕ × ChunkStream) → List (ℕ × ChunkStream)
put_stream k c [] = (k, c) ∷ []
put_stream k c ((j, d) ∷ m) = if j == k then (k, c) ∷ m else (j, d) ∷ put_stream k c m

-- The key under which a stream is kept.
abbrev pub stream_key : ℕ → ℕ
stream_key csid = csid % 256

stream_or_new : Option ChunkStream → Session → ChunkStream
stream_or_new none s = new_chunk_stream s.fmt s.csid s.chunk_size
stream_or_new (some c) s = record c { chunk_size = s.chunk_size }

unfoldable pub current_stream : Session → ChunkStream
unfolding stream_or_new
current_stream s = stream_or_new (find_stream (stream_key s.csid) s.cs_map) s

-- The stream and the receive buffer go back into the session.
unfoldable pub store : Session → ChunkStream → List ℕ → Session
store s c recv = record s { recv = recv; cs_map = put_stream (stream_key s.csid) c s.cs_map }

unfoldable pub after_payload : Session → Code × ChunkStream × List ℕ → Code × Session
unfolding store
after_payload s (rtmp_ok, c, recv) = (rtmp_ok, record (store s c recv) { fmt_ready = false })
after_payload s (code, c, recv) = (code, store s c recv)

unfoldable pub after_header : Session → Code × ChunkStream × List ℕ → Code × Session
unfolding store after_payload
after_header s (rtmp_ok, c, recv) = after_payload s (read_message_payload c recv)
after_header s (code, c, recv) = (code, store s c recv)

-- ReadChunkStream once `fmt_ready_` holds.
unfoldable pub read_ready : Session → Option (Code × Session)
unfolding after_header current_stream
read_ready s = do
  r ← read_message_header s.fmt s.csid (current_stream s) s.recv
  some (after_header s r)

unfoldable pub after_basic : Code × Session → Option (Code × Session)
unfolding read_ready
after_basic (rtmp_ok, s) = read_ready (record s { fmt_ready = true })
after_basic (code, s) = some (code, s)

unfoldable pub read_chunk_stream : Session → Option (Code × Session)
unfolding after_basic
read_chunk_stream s = if s.fmt_ready then read_ready s else after_basic (read_fmt_csid s)

-- Whether the stream last read holds a whole message.
unfoldable pub is_ready : Session → Bool
is_ready s = (current_stream s).chunk_ready

-- The start of the loop in RtmpClientSession::ReceiveRespMessage: chunks are read until a message is
-- whole. The last clause is fuel run out.
unfoldable pub read_message : ℕ → Session → Option (Code × Session)
unfolding is_ready
read_message zero s = none
read_message (suc fuel) s = elim (read_chunk_stream s) [
  | none ↦ none
  | some (rtmp_ok, t) ↦ elim (is_ready t) [
    | true ↦ some (rtmp_ok, t)
    | false ↦ elim (ltb 0 (length t.recv)) [
      | true ↦ read_message fuel t
      | false ↦ some (rtmp_need_read_more, t)
    ]
  ]
  | some (code, t) ↦ some (code, t)
]
