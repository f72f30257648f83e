-- ===== src/Rtmp/Tests.antt =====
-- The theorems on chunks at concrete messages.
use cpp_streamer.Base.{ℕ, ◌+◌, ◌/◌, ◌%◌}
use cpp_streamer.Base.{◌≡◌, refl, ◌≢◌, false}
use cpp_streamer.Base.{some, List, [], ◌∷◌, ◌++◌, arith}
use cpp_streamer.Rtmp.Chunk.{rtmp_ok, rtmp_need_read_more}
use cpp_streamer.Rtmp.Session.{Session, find_stream, read_fmt_csid, read_message}
use cpp_streamer.Rtmp.Writer.{Message, gen_basic_header, write_data_by_chunk_stream}
use cpp_streamer.Rtmp.RoundTrip.Streams.{IsPlain, IsIdle}
use cpp_streamer.Rtmp.RoundTrip.Rounds.{sent}
use cpp_streamer.Rtmp.RoundTrip.{Delivered, read_message-write}
use cpp_streamer.Rtmp.BasicHeader.{id_read, read_fmt_csid-gen, read_fmt_csid_split}

abbrev hello : Message
hello = record { csid = 5; timestamp = 1000; type_id = 8; msg_stream_id = 1 }

abbrev listening : Session
listening = record { recv = []; fmt_ready = false; fmt = 0; csid = 0; cs_map = []; chunk_size = 2 }

hello-IsPlain : IsPlain hello (1 ∷ 2 ∷ 3 ∷ 4 ∷ 5 ∷ [])
hello-IsPlain = omega arith

idle : IsIdle (find_stream 5 [])
unfolding find_stream
idle = tt

read_message-write_example :
    (chunks : List (List ℕ)) × (write_data_by_chunk_stream hello 2 (1 ∷ 2 ∷ 3 ∷ 4 ∷ 5 ∷ [])
      ≡ some chunks)
    × ((t : Session) × (read_message 5 (record listening { recv = sent chunks ++ 9 ∷ [] })
          ≡ some (rtmp_ok, t))
        × Delivered hello (1 ∷ 2 ∷ 3 ∷ 4 ∷ 5 ∷ []) (9 ∷ []) t)
read_message-write_example =
    read_message-write hello (1 ∷ 2 ∷ 3 ∷ 4 ∷ 5 ∷ []) (9 ∷ []) listening 5 hello-IsPlain
      (omega arith) (omega arith) refl idle (omega arith)

read_fmt_csid-gen_example :
    (header : List ℕ) × (gen_basic_header 1 400 ≡ some header)
    × (read_fmt_csid (record listening { recv = header ++ 9 ∷ [] })
        ≡ (rtmp_ok, record listening { recv = 9 ∷ []; fmt = 1; csid = id_read 400 }))
    × (id_read 400 ≢ 400)
read_fmt_csid-gen_example =
    read_fmt_csid-gen 1 400 (9 ∷ []) listening (omega arith) (omega arith) (omega arith)

read_fmt_csid_split_example :
    (t : Session) × (read_fmt_csid (record listening { recv = 64 ∷ [] }) ≡ (rtmp_need_read_more, t))
    × (t.fmt_ready ≡ false)
    × (read_fmt_csid (record t { recv = t.recv ++ 6 ∷ 9 ∷ [] })
        ≡ read_fmt_csid (record listening { recv = 6 ∷ 9 ∷ [] }))
    × (read_fmt_csid (record listening { recv = 6 ∷ 9 ∷ [] })
        ≢ (rtmp_ok, record listening { recv = 9 ∷ []; fmt = 64 / 64 % 4; csid = 64 + 6 }))
    × (read_fmt_csid (record listening { recv = 64 ∷ 6 ∷ 9 ∷ [] })
        ≡ (rtmp_ok, record listening { recv = 9 ∷ []; fmt = 64 / 64 % 4; csid = 64 + 6 }))
read_fmt_csid_split_example = read_fmt_csid_split 64 6 (9 ∷ []) listening refl
