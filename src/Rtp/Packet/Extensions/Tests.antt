-- ===== src/Rtp/Packet/Extensions/Tests.antt =====
-- Runs of the operations on the header extension.
use cpp_streamer.Base.{◌≡◌, refl, some, [], ◌∷◌}
use cpp_streamer.Base.Outcome.{done, ◌>>=◌}
use cpp_streamer.Rtp.Packet.Extensions.{
  get_extension, read_abs_time, update_abs_time, update_mid, clone,
}
use cpp_streamer.Rtp.Packet.Tests.{packet, wire}

get_extension_test : get_extension 1 packet ≡ done (some (5, 3))
unfolding get_extension cpp_streamer.Utils.ByteStream.read2_bytes
get_extension_test = refl

clone_test : (clone (0 ∷ wire) packet >>= get_extension 2) ≡ done (some (10, 1))
unfolding clone get_extension cpp_streamer.Utils.ByteStream.read2_bytes
clone_test = refl

abs_time_test :
    (update_abs_time 0x070809 (record packet { abs_time_extension_id = 1 })
      >>= (λ r. read_abs_time (r.1)))
    ≡ done (some 0x070809)
unfolding update_abs_time read_abs_time cpp_streamer.Utils.ByteStream.read2_bytes
abs_time_test = refl

-- The element 2 has one byte, and the three written run into what follows it.
abs_time_short_test :
    (update_abs_time 0x070809 (record packet { abs_time_extension_id = 2 })
      >>= (λ r. done (r.1).body))
    ≡ done (0xbe ∷ 0xde ∷ 0 ∷ 2 ∷ 0x12 ∷ 1 ∷ 2 ∷ 3 ∷ 0 ∷ 0x22 ∷ 7 ∷ 8 ∷ 9 ∷ 0xbb ∷ 0xcc ∷ [])
unfolding update_abs_time cpp_streamer.Utils.ByteStream.read2_bytes
abs_time_short_test = refl

mid_test :
    (update_mid 37 (record packet { mid_extension_id = 1 }) >>= (λ r. get_extension 1 (r.1)))
    ≡ done (some (5, 2))
unfolding update_mid get_extension cpp_streamer.Utils.ByteStream.read2_bytes
mid_test = refl
