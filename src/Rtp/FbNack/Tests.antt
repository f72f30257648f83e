-- ===== src/Rtp/FbNack/Tests.antt =====
-- The theorems on the retransmission request at concrete requests.
use cpp_streamer.Base.{◌≡◌, ◌≢◌, ◌+◌, ◌-◌, ◌%◌, ◌^◌, ◌++◌}
use cpp_streamer.Base.{some, [], ◌∷◌, arith}
use cpp_streamer.Rtp.FbNack.{FbNack, new_fb_nack, insert_seq_list, parse, get_lost_seqs}
use cpp_streamer.Rtp.FbNack.Wire.{insert_seq_list_pair}
use cpp_streamer.Utils.ByteStream.{write2_bytes, write4_bytes}

insert_seq_list_pair_example :
    (q : FbNack) × (insert_seq_list (5 ∷ (5 + 2) ∷ []) (new_fb_nack 7 9) ≡ some q)
    × (q.bytes
        ≡ 0x81
          ∷ 205
          ∷ 0
          ∷ 3
          ∷ (write4_bytes 7 ++ (write4_bytes 9 ++ (write2_bytes 5 ++ write2_bytes (2 ^ (16 - 2))))))
    × (parse q.bytes ≡ some (some q))
    × (get_lost_seqs q.blocks ≡ 5 ∷ ((5 + 17 - 2) % 65536) ∷ [])
    × ((5 + 17 - 2) % 65536 ≢ 5 + 2)
insert_seq_list_pair_example =
    insert_seq_list_pair 7 9 5 2 (omega arith) (omega arith) (omega arith)
