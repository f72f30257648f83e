-- ===== src/Rtp/Seq/Tests.antt =====
-- The theorems on the order of sequence numbers at a wrap.
use cpp_streamer.Base.{◌≡◌, ◌&&◌, ◌||◌}
use cpp_streamer.Base.{arith}
use cpp_streamer.Base.{ltb, ◌==◌}
use cpp_streamer.Rtp.Seq.{seq_lower_than, ahead, seq_lower_than-ahead}

seq_lower_than_example : seq_lower_than 65535 3 ≡ (
    ltb 0 (ahead 65535 3) && (ltb (ahead 65535 3) 32768 || (ahead 65535 3 == 32768 && ltb 3 65535)))
seq_lower_than_example = seq_lower_than-ahead 65535 3 (omega arith) (omega arith)
