-- ===== src/Rtmp/Chunk/Safety.antt =====
-- Reading a message header never leaves the receive buffer, and asks for more without taking a byte.
use cpp_streamer.Base.{ℕ}
use cpp_streamer.Base.{◌≡◌, ◌⊎◌}
use cpp_streamer.Base.{some, List}
use cpp_streamer.Rtmp.Chunk.{Reading, ChunkStream, Code, rtmp_ok, rtmp_need_read_more}

-- The reading is defined; it succeeds, or asks for more and leaves the buffer as it was.
abbrev pub Retries : List ℕ → Reading → Type 0
Retries recv r =
    (x : Code × ChunkStream × List ℕ) × (r ≡ some x)
    × ((x.0 ≡ rtmp_ok) ⊎ ((x.0 ≡ rtmp_need_read_more) × (x.2 ≡ recv)))
