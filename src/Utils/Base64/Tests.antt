-- ===== src/Utils/Base64/Tests.antt =====
-- The theorems on Base64 at concrete bytes.
use cpp_streamer.Base.{◌≡◌}
use cpp_streamer.Base.{[], ◌∷◌, arith}
use cpp_streamer.Utils.Base64.{base64_encode, base64_decode}
use cpp_streamer.Utils.Base64.Laws.{base64_decode-encode}

base64_decode-encode_example :
    base64_decode (base64_encode (255 ∷ 0 ∷ 17 ∷ 98 ∷ [])) ≡ 255 ∷ 0 ∷ 17 ∷ 98 ∷ []
base64_decode-encode_example = base64_decode-encode (255 ∷ 0 ∷ 17 ∷ 98 ∷ []) (omega arith)
