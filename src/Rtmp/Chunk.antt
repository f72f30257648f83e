-- ===== src/Rtmp/Chunk.antt =====
-- src/net/rtmp/chunk_stream.hpp and the reading half of chunk_stream.cpp. The receive buffer and the
-- two buffers of a chunk stream are byte queues, the view that Utils/DataBuffer justifies:
-- Require compares with the length, Data is the list, ConsumeData drops, AppendData appends.
-- `none` is a read past the bytes received.
pub mod Steps
pub mod Safety
use cpp_streamer.Base.{ℕ, zero, suc, ◌+◌, ◌-◌, ◌%◌, ◌^◌, ltb, leb, ◌==◌, if◌then◌else◌, ◌>>=◌}
use cpp_streamer.Base.{
  Bool, true, false, ◌&&◌, ◌||◌, Option, none, some, List, [], ◌++◌, length, get_elem?, take, drop,
}
use cpp_streamer.Utils.ByteStream.{read3_bytes, read4_bytes}

-- RTMP_OK, RTMP_NEED_READ_MORE and the negative codes.
pub data Code : Type 0 where
  rtmp_ok rtmp_need_read_more rtmp_error : Code

pub data Phase : Type 0 where
  phase_header phase_payload : Phase

pub record ChunkStream : Type 0 where
  pub timestamp_delta : ℕ
  pub timestamp32 : ℕ
  pub msg_len : ℕ
  pub type_id : ℕ
  pub msg_stream_id : ℕ
  pub remain : ℕ
  pub require_len : ℕ
  pub chunk_size : ℕ
  pub chunk_all : List ℕ
  pub chunk_data : List ℕ
  pub ext_ts_flag : Bool
  pub fmt : ℕ
  pub csid : ℕ
  pub phase : Phase
  pub chunk_ready : Bool
  pub msg_count : ℕ

-- The code returned, the stream, and what is left in the receive buffer.
abbrev pub Reading : Type 0
Reading = Option (Code × ChunkStream × List ℕ)

unfoldable pub new_chunk_stream : ℕ → ℕ → ℕ → ChunkStream
new_chunk_stream fmt csid chunk_size = record {
  timestamp_delta = 0;
  timestamp32 = 0;
  msg_len = 0;
  type_id = 0;
  msg_stream_id = 0;
  remain = 0;
  require_len = 0;
  chunk_size = chunk_size;
  chunk_all = [];
  chunk_data = [];
  ext_ts_flag = false;
  fmt = fmt;
  csid = csid;
  phase = phase_header;
  chunk_ready = false;
  msg_count = 0;
}

abbrev max_ts : ℕ
max_ts = 0xffffff

-- The timestamp in force after a header of `header_len` bytes, and the rest of the buffer: the
-- extended field is read where the three bytes are all ones.
unfoldable pub extended : ℕ → ℕ → List ℕ → Option (ℕ × List ℕ)
extended header_len ts recv =
    if leb max_ts ts
    then (do ext ← read4_bytes (drop header_len recv); some (ext, drop (header_len + 4) recv))
    else some (ts, drop header_len recv)

-- The fields set before the test for the extended timestamp.
unfoldable pub mark_header : ℕ → ℕ → ℕ → ChunkStream → ChunkStream
mark_header input_fmt input_csid ts c = record c {
  fmt = input_fmt;
  csid = input_csid;
  ext_ts_flag = if leb max_ts ts then true else c.ext_ts_flag;
}

-- FORMAT0_HEADER_LEN is 11, FORMAT1_HEADER_LEN 7, FORMAT2_HEADER_LEN 3 and EXT_TS_LEN 4.
unfoldable pub read_msg_format0 : ℕ → ℕ → ChunkStream → List ℕ → Reading
unfolding mark_header extended
read_msg_format0 input_fmt input_csid c recv =
    if ltb (length recv) 11 then some (rtmp_need_read_more, c, recv) else (do
      ts ← read3_bytes recv
      if leb max_ts ts && ltb (length recv) (11 + 4)
          then some (rtmp_need_read_more, mark_header input_fmt input_csid ts c, recv)
          else (do
            len ← read3_bytes (drop 3 recv)
            type ← get_elem? recv 6
            stream ← read4_bytes (drop 7 recv)
            (ts', rest) ← extended 11 ts recv
            some (
              rtmp_ok,
              record (mark_header input_fmt input_csid ts c) {
                timestamp32 = ts';
                timestamp_delta = 0;
                msg_len = len;
                type_id = type;
                msg_stream_id = stream;
                remain = len;
              },
              rest,
            )))

unfoldable pub read_msg_format1 : ℕ → ℕ → ChunkStream → List ℕ → Reading
unfolding mark_header extended
read_msg_format1 input_fmt input_csid c recv =
    if ltb (length recv) 7 then some (rtmp_need_read_more, c, recv) else (do
      ts ← read3_bytes recv
      if leb max_ts ts && ltb (length recv) (7 + 4)
          then some (rtmp_need_read_more, mark_header input_fmt input_csid ts c, recv)
          else (do
            len ← read3_bytes (drop 3 recv)
            type ← get_elem? recv 6
            (ts', rest) ← extended 7 ts recv
            some (
              rtmp_ok,
              record (mark_header input_fmt input_csid ts c) {
                timestamp_delta = ts';
                timestamp32 = (c.timestamp32 + ts') % 2 ^ 32;
                msg_len = len;
                type_id = type;
                remain = len;
              },
              rest,
            )))

unfoldable pub read_msg_format2 : ℕ → ℕ → ChunkStream → List ℕ → Reading
unfolding mark_header extended
read_msg_format2 input_fmt input_csid c recv =
    if ltb (length recv) 3 then some (rtmp_need_read_more, c, recv) else (do
      ts ← read3_bytes recv
      if leb max_ts ts && ltb (length recv) (3 + 4)
          then some (rtmp_need_read_more, mark_header input_fmt input_csid ts c, recv)
          else (do
            (ts', rest) ← extended 3 ts recv
            some (
              rtmp_ok,
              record (mark_header input_fmt input_csid ts c) {
                timestamp_delta = ts';
                timestamp32 = (c.timestamp32 + ts') % 2 ^ 32;
                remain = c.msg_len;
              },
              rest,
            )))

-- A format 3 chunk that opens a message: the timestamp goes by the format of the last header read.
unfoldable pub repeat_timestamp : ChunkStream → List ℕ → Reading
repeat_timestamp c recv =
    if c.fmt == 0
    then (if c.ext_ts_flag
        then (if ltb (length recv) 4 then some (rtmp_need_read_more, c, recv) else (do
          ts ← read4_bytes recv
          some (rtmp_ok, record c { timestamp32 = ts }, drop 4 recv)))
        else some (rtmp_ok, c, recv))
    else if c.fmt == 1 || c.fmt == 2
    then (if c.ext_ts_flag
        then (if ltb (length recv) 4 then some (rtmp_need_read_more, c, recv) else (do
          delta ← read4_bytes recv
          some (rtmp_ok, record c { timestamp32 = (c.timestamp32 + delta) % 2 ^ 32 }, drop 4 recv)))
        else some (
          rtmp_ok,
          record c { timestamp32 = (c.timestamp32 + c.timestamp_delta) % 2 ^ 32 },
          recv,
        ))
    else some (rtmp_ok, c, recv)

open_message : Code × ChunkStream × List ℕ → Reading
open_message (rtmp_ok, c, recv) = some (
  rtmp_ok,
  record c { chunk_all = []; chunk_data = []; remain = c.msg_len; chunk_ready = false },
  recv,
)
open_message (code, c, recv) = some (code, c, recv)

-- A format 3 chunk inside a message: an extended timestamp that repeats the message's is skipped.
unfoldable pub skip_timestamp : ChunkStream → List ℕ → Reading
skip_timestamp c recv =
    if c.ext_ts_flag
    then (if ltb (length recv) 4 then some (rtmp_need_read_more, c, recv) else (do
      ts ← read4_bytes recv
      some (rtmp_ok, c, if ts == c.timestamp32 then drop 4 recv else recv)))
    else some (rtmp_ok, c, recv)

set_format : ℕ → ℕ → Code × ChunkStream × List ℕ → Reading
set_format input_fmt input_csid (rtmp_ok, c, recv) =
    some (rtmp_ok, record c { fmt = input_fmt; csid = input_csid }, recv)
set_format input_fmt input_csid (code, c, recv) = some (code, c, recv)

unfoldable pub read_msg_format3 : ℕ → ℕ → ChunkStream → List ℕ → Reading
unfolding open_message set_format
read_msg_format3 input_fmt input_csid c recv = do
  opened ← if c.remain == 0 then repeat_timestamp c recv >>= open_message else skip_timestamp c recv
  set_format input_fmt input_csid opened

-- The tail of ReadMessageHeader.
unfoldable pub enter_payload : Code × ChunkStream × List ℕ → Reading
enter_payload (rtmp_ok, c, recv) =
    some (rtmp_ok, record c { msg_count = 0; phase = phase_payload }, recv)
enter_payload (code, c, recv) = some (code, c, recv)

-- A format above 3 fails the assertion.
unfoldable pub read_header_of : ℕ → ℕ → ChunkStream → List ℕ → Reading
read_header_of zero input_csid c recv = read_msg_format0 0 input_csid c recv
read_header_of (suc zero) input_csid c recv = read_msg_format1 1 input_csid c recv
read_header_of (suc (suc zero)) input_csid c recv = read_msg_format2 2 input_csid c recv
read_header_of (suc (suc (suc zero))) input_csid c recv = read_msg_format3 3 input_csid c recv
read_header_of input_fmt input_csid c recv = none

header_from : Phase → ℕ → ℕ → ChunkStream → List ℕ → Reading
unfolding read_header_of enter_payload
header_from phase_payload input_fmt input_csid c recv = some (rtmp_ok, c, recv)
header_from phase_header input_fmt input_csid c recv = do
  r ← read_header_of input_fmt input_csid c recv
  enter_payload r

unfoldable pub read_message_header : ℕ → ℕ → ChunkStream → List ℕ → Reading
unfolding header_from
read_message_header input_fmt input_csid c recv = header_from c.phase input_fmt input_csid c recv

payload_from : Phase → ChunkStream → List ℕ → Code × ChunkStream × List ℕ
payload_from phase_header c recv = (rtmp_ok, c, recv)
payload_from phase_payload c recv =
    let n = if ltb c.chunk_size c.remain then c.chunk_size else c.remain in
    if ltb (length recv) n then (rtmp_need_read_more, record c { require_len = n }, recv) else (
      rtmp_ok,
      record c {
        require_len = n;
        chunk_data = c.chunk_data ++ take n recv;
        remain = c.remain - n;
        msg_count = c.msg_count + 1;
        chunk_ready = if c.remain - n == 0 then true else c.chunk_ready;
        phase = phase_header;
      },
      drop n recv,
    )

unfoldable pub read_message_payload : ChunkStream → List ℕ → Code × ChunkStream × List ℕ
unfolding payload_from
read_message_payload c recv = payload_from c.phase c recv

-- ChunkStream::Reset
pub reset : ChunkStream → ChunkStream
reset c = record c { phase = phase_header; chunk_ready = false; chunk_all = []; chunk_data = [] }
