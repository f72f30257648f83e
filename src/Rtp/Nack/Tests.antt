-- ===== src/Rtp/Nack/Tests.antt =====
-- The theorems on the list of missing packets at concrete generators.
use cpp_streamer.Base.{◌≡◌, true, ◌&&◌}
use cpp_streamer.Base.{[], ◌∷◌, arith}
use cpp_streamer.Base.{if◌then◌else◌}
use cpp_streamer.Rtp.Seq.{seq_lower_than}
use cpp_streamer.Rtp.Nack.{NackGenerator, find_nack, update_nack_list}
use cpp_streamer.Rtp.Nack.Laws.{IsValid}
use cpp_streamer.Rtp.Nack.Gaps.{entry_after, update_nack_list_lem}

-- Packet 17 was asked for twice, and the last packet was number 20.
abbrev missing17 : NackGenerator
missing17 = record {
  init_flag = true;
  last_seq = 20;
  nack_map = record { seq = 17; sent_ms = 100; retry = 2 } ∷ [];
  rtt = 15;
}

missing17-IsValid : IsValid missing17
missing17-IsValid = omega arith

update_nack_list_example :
    let g' = update_nack_list 24 missing17 in
    IsValid g'
    × (find_nack 22 g'.nack_map ≡ entry_after 24 22 missing17)
    × (g'.init_flag ≡ true)
    × (g'.last_seq ≡ (
        if missing17.init_flag && seq_lower_than 24 missing17.last_seq
        then missing17.last_seq
        else 24))
update_nack_list_example = update_nack_list_lem 24 22 missing17 missing17-IsValid (omega arith)
