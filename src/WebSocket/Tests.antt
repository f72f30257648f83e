-- ===== src/WebSocket/Tests.antt =====
-- The theorems on frames at concrete frames.
use cpp_streamer.Base.{◌<◌, length, true, ℕ, ◌+◌, ◌%◌}
use cpp_streamer.Base.{◌≡◌, refl, false}
use cpp_streamer.Base.{none, some, List, [], ◌∷◌, ◌++◌, arith}
use cpp_streamer.WebSocket.{Key, send_ws_frame, Frame, parse}
use cpp_streamer.WebSocket.Frames.{Received, parse-send_ws_frame}
use cpp_streamer.WebSocket.Header.{IsKey, keyed, opened, holding}
use cpp_streamer.WebSocket.Overrun.{bare, parse_huge}
use cpp_streamer.WebSocket.Stream.{parse-append}
use cpp_streamer.WebSocket.{
  sum_overflows, is_short, unmask, parse_held, read_header, read_length, read_mask, after_read,
}
use cpp_streamer.Utils.ByteStream.{write8_bytes}

abbrev key : Key
key = record { k0 = 17; k1 = 200; k2 = 3; k3 = 99 }

abbrev idle_frame : Frame
idle_frame = record {
  buffer = [];
  payload_start = 0;
  payload_len = 0;
  opcode = 0;
  mask_enable = false;
  fin = false;
  header_ready = false;
  masking_key = key;
}

key-IsKey : IsKey key
key-IsKey = omega arith

parse-send_ws_frame_example :
    (wire : List ℕ) × (send_ws_frame key 2 (10 ∷ 20 ∷ 30 ∷ 40 ∷ 50 ∷ []) ≡ some wire)
    × ((t : Frame) × (parse (wire ++ 137 ∷ []) idle_frame ≡ some (0, t))
        × Received 2 (10 ∷ 20 ∷ 30 ∷ 40 ∷ 50 ∷ []) (137 ∷ []) t)
parse-send_ws_frame_example =
    parse-send_ws_frame key 2 (10 ∷ 20 ∷ 30 ∷ 40 ∷ 50 ∷ []) (137 ∷ []) idle_frame key-IsKey
      (omega arith) (omega arith) (omega arith) refl refl

abbrev huge : ℕ
huge = 0x8000000000000000

parse_huge_example :
    let wire = (128 + 2 % 16) ∷ 127 ∷ (write8_bytes huge ++ (1 ∷ 2 ∷ [])) in
    let masked = (128 + 2 % 16) ∷ 255 ∷ (write8_bytes huge ++ keyed key (1 ∷ 2 ∷ [])) in
    let t = opened key 2 14 huge (holding masked idle_frame) in
    (parse wire idle_frame ≡ some (0, bare 2 huge (holding wire idle_frame)))
    × (length wire < 10 + huge)
    × (read_header masked (holding masked idle_frame) ≡ some (true, t))
    × (sum_overflows t ≡ false)
    × (is_short t ≡ false)
    × (unmask t ≡ none)
    × (parse masked idle_frame ≡ none)
parse_huge_example =
    parse_huge key 2 huge (1 ∷ 2 ∷ []) idle_frame (omega arith) (omega arith) (omega arith) refl
      refl

-- The first three bytes of a frame of five bytes, and the state after them.
abbrev waiting : Frame
waiting = record idle_frame {
  buffer = 130 ∷ 133 ∷ 17 ∷ [];
  payload_start = 2;
  payload_len = 5;
  opcode = 2;
  mask_enable = true;
  fin = true;
}

waits : parse (130 ∷ 133 ∷ 17 ∷ []) idle_frame ≡ some (1, waiting)
unfolding parse parse_held read_header read_length read_mask after_read
waits = refl

parse-append_example :
    parse (200 ∷ 3 ∷ 99 ∷ 1 ∷ 2 ∷ 3 ∷ 4 ∷ 5 ∷ []) waiting
    ≡ parse (130 ∷ 133 ∷ 17 ∷ 200 ∷ 3 ∷ 99 ∷ 1 ∷ 2 ∷ 3 ∷ 4 ∷ 5 ∷ []) idle_frame
parse-append_example =
    parse-append (130 ∷ 133 ∷ 17 ∷ []) (200 ∷ 3 ∷ 99 ∷ 1 ∷ 2 ∷ 3 ∷ 4 ∷ 5 ∷ []) idle_frame waiting
      waits
