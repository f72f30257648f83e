-- ===== src/Rtmp/Writer.antt =====
-- The writing half of src/net/rtmp/chunk_stream.cpp: control messages, the bytes of one chunk, and
-- the cutting of a message into chunks.
use cpp_streamer.Base.{ℕ, zero, suc, ◌+◌, ◌-◌, ◌*◌, ◌/◌, ◌%◌, ltb, ◌==◌, if◌then◌else◌}
use cpp_streamer.Base.{Option, none, some, List, [], ◌∷◌, ◌++◌, length, take, drop, bit_and, bit_or}
use cpp_streamer.Utils.ByteStream.{write2_bytes, write3_bytes, write4_bytes}
use cpp_streamer.Rtmp.Chunk.{ChunkStream, new_chunk_stream, Code, rtmp_ok, rtmp_error}

-- The basic header that GenData writes for a chunk stream id below 65536 + 64.
unfoldable pub gen_basic_header : ℕ → ℕ → Option (List ℕ)
gen_basic_header fmt csid =
    if ltb csid 64
    then some (bit_or (fmt * 64) (bit_and csid 0x3f) % 256 ∷ [])
    else if ltb (csid - 64) 256
    then some (bit_and (fmt * 64) 0xc0 ∷ csid % 256 ∷ [])
    else if ltb (csid - 64) 65536
    then some (bit_or (bit_and (fmt * 64) 0xc0) 0x01 ∷ write2_bytes (csid % 65536))
    else none

unfoldable pub gen_message_header : ChunkStream → List ℕ
gen_message_header c =
    if c.fmt == 0
    then write3_bytes c.timestamp32
      ++ write3_bytes c.msg_len
      ++ c.type_id ∷ write4_bytes c.msg_stream_id
    else if c.fmt == 1
    then write3_bytes c.timestamp32 ++ write3_bytes c.msg_len ++ c.type_id ∷ []
    else if c.fmt == 2
    then write3_bytes c.timestamp32
    else []

-- GenData appends to `chunk_all_`; where the id is too large it returns -1 and appends nothing.
unfoldable pub gen_data : ChunkStream → List ℕ → Code × ChunkStream
gen_data c bytes = elim (gen_basic_header c.fmt c.csid) [
  | none ↦ (rtmp_error, c)
  | some basic ↦
      (rtmp_ok, record c { chunk_all = c.chunk_all ++ basic ++ gen_message_header c ++ bytes })
]

-- GenSetRecordedMessage and GenSetBeginMessage, by the event.
user_control_message : ℕ → ChunkStream → Code × ChunkStream
unfolding gen_data
user_control_message event c =
    let c1 : ChunkStream = record c {
      fmt = 0;
      csid = 2;
      type_id = 4;
      msg_stream_id = 1;
      msg_len = 6;
    } in
    (rtmp_ok, (gen_data c1 (event / 256 % 256 ∷ event % 256 ∷ 0 ∷ 0 ∷ 0 ∷ 1 ∷ [])).1)

gen_set_recorded_message : ChunkStream → Code × ChunkStream
unfolding user_control_message
gen_set_recorded_message = user_control_message 4

gen_set_begin_message : ChunkStream → Code × ChunkStream
unfolding user_control_message
gen_set_begin_message = user_control_message 0

-- The body of a control message by its size; other sizes are refused.
control_body : ℕ → ℕ → Option (List ℕ)
control_body size value =
    if size == 1
    then some (value % 256 ∷ [])
    else if size == 2
    then some (write2_bytes (value % 65536))
    else if size == 3
    then some (write3_bytes value)
    else if size == 4
    then some (write4_bytes value)
    else if size == 5
    then some (write4_bytes value ++ 2 ∷ [])
    else none

pub gen_control_message : ℕ → ℕ → ℕ → ChunkStream → Code × ChunkStream
unfolding control_body gen_data
gen_control_message ctrl_type size value c =
    let c1 : ChunkStream = record c {
      fmt = 0;
      type_id = ctrl_type;
      msg_stream_id = 0;
      msg_len = size;
    } in
    elim (control_body size value) [
      | none ↦ (rtmp_error, c1)
      | some body ↦ (rtmp_ok, (gen_data c1 body).1)
    ]

-- The fields of a message that its chunks carry.
pub record Message : Type 0 where
  pub csid : ℕ
  pub timestamp : ℕ
  pub type_id : ℕ
  pub msg_stream_id : ℕ

-- One round of the loop: the stream made for the chunk, filled in, and what it sends.
unfoldable pub chunk_of : Message → ℕ → ℕ → ℕ → List ℕ → List ℕ
chunk_of m fmt chunk_size total bytes =
    (gen_data
      (record (new_chunk_stream fmt m.csid chunk_size) {
        timestamp32 = m.timestamp;
        msg_len = total;
        type_id = m.type_id;
        msg_stream_id = m.msg_stream_id;
      })
      bytes).1.chunk_all

unfoldable pub chunk_count : ℕ → ℕ → ℕ
chunk_count chunk_size total =
    if ltb 0 (total % chunk_size) then total / chunk_size + 1 else total / chunk_size

-- `len` in the round `index`.
unfoldable pub chunk_len : ℕ → ℕ → ℕ → ℕ
unfolding chunk_count
chunk_len chunk_size total index =
    if index + 1 == chunk_count chunk_size total
    then (if ltb 0 (total % chunk_size) then total % chunk_size else chunk_size)
    else chunk_size

-- The rounds from `index` on; each chunk goes to RtmpSend.
unfoldable pub write_chunks : Message → ℕ → List ℕ → ℕ → ℕ → List (List ℕ)
write_chunks m chunk_size bytes index zero = []
write_chunks m chunk_size bytes index (suc rounds) =
    chunk_of m (if index == 0 then 0 else 3) chunk_size (length bytes)
      (take (chunk_len chunk_size (length bytes) index) (drop (index * chunk_size) bytes))
    ∷ write_chunks m chunk_size bytes (suc index) rounds

-- WriteDataByChunkStream; a chunk size of 0 is a division by zero.
unfoldable pub write_data_by_chunk_stream : Message → ℕ → List ℕ → Option (List (List ℕ))
unfolding write_chunks chunk_count
write_data_by_chunk_stream m chunk_size bytes =
    if chunk_size == 0
    then none
    else some (write_chunks m chunk_size bytes 0 (chunk_count chunk_size (length bytes)))
