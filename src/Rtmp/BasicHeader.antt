-- ===== src/Rtmp/BasicHeader.antt =====
-- src/net/rtmp: where the sender and the receiver of chunks disagree. Chunk stream ids of two and
-- three bytes, timestamps that need the extended field, and a basic header that arrives in parts.
use cpp_streamer.Base.{ℕ, ◌+◌, ◌*◌, ◌/◌, ◌%◌, ◌^◌, ◌≤◌, ◌<◌, bit_and, bit_or}
use cpp_streamer.Base.{◌≡◌, refl, ap, ◌∙◌, ◌≢◌, inl, inr}
use cpp_streamer.Base.{some, List, [], ◌∷◌, ◌++◌, arith}
use cpp_streamer.Base.{ltb, if◌then◌else◌, Bool-cases}
use cpp_streamer.Base.{drop, length, zero, suc}
use cpp_streamer.Base.Bits.{agree_below, agree_below→eq}
use cpp_streamer.Rtmp.Chunk.{
  ChunkStream, rtmp_ok, rtmp_need_read_more, phase_header, read_message_header,
}
use cpp_streamer.Rtmp.Chunk.Steps.{header0}
use cpp_streamer.Rtmp.RoundTrip.Streams.{first_chunk}
use cpp_streamer.Rtmp.Session.{Session, read_fmt_csid, read_csid}
use cpp_streamer.Rtmp.Writer.{Message, gen_basic_header, chunk_of}
use cpp_streamer.Utils.ByteStream.{write2_bytes, write3_bytes, write4_bytes}

high_bits : (fmt : ℕ) → fmt < 4 → bit_and (fmt * 64) 0xc0 ≡ fmt * 64
unfolding agree_below
high_bits = agree_below→eq _ _ 4 refl

low_bit : (fmt : ℕ) → fmt < 4 → bit_or (bit_and (fmt * 64) 0xc0) 0x01 ≡ fmt * 64 + 1
unfolding agree_below
low_bit = agree_below→eq _ _ 4 refl

-- The id that ReadFmtCsid gets from the basic header that GenData writes for `csid`.
abbrev pub id_read : ℕ → ℕ
id_read csid = if ltb csid 320 then 64 + csid % 256 else 64 + csid / 256 % 256 + csid % 256

read_two :
    (fmt csid : ℕ) (rest : List ℕ) (s : Session)
    → fmt < 4
    → s.recv ≡ (fmt * 64) ∷ csid ∷ rest
    → read_fmt_csid s ≡ (rtmp_ok, record s { recv = rest; fmt = fmt; csid = 64 + csid })
unfolding read_fmt_csid read_csid
read_two fmt csid rest s hf e =
    let ec : fmt * 64 % 64 ≡ 0 = omega arith in
    let ef : fmt * 64 / 64 % 4 ≡ fmt = omega arith in rw (e, ec, ef)

read_three :
    (fmt a b : ℕ) (rest : List ℕ) (s : Session)
    → fmt < 4
    → s.recv ≡ (fmt * 64 + 1) ∷ a ∷ b ∷ rest
    → read_fmt_csid s ≡ (rtmp_ok, record s { recv = rest; fmt = fmt; csid = 64 + a + b })
unfolding read_fmt_csid read_csid
read_three fmt a b rest s hf e =
    let ec : (fmt * 64 + 1) % 64 ≡ 1 = omega arith in
    let ef : (fmt * 64 + 1) / 64 % 4 ≡ fmt = omega arith in rw (e, ec, ef)

-- For every chunk stream id from 64 to 65535 the header that the sender writes is read with its
-- format but as another id, `id_read`: the sender writes the id where the receiver expects the id less
-- 64, and the receiver adds the two bytes of a long id without their weights.
pub read_fmt_csid-gen :
    (fmt csid : ℕ) (rest : List ℕ) (s : Session)
    → fmt < 4
    → 64 ≤ csid
    → csid < 65536
    → (header : List ℕ) × (gen_basic_header fmt csid ≡ some header)
      × (read_fmt_csid (record s { recv = header ++ rest })
          ≡ (rtmp_ok, record s { recv = rest; fmt = fmt; csid = id_read csid }))
      × (id_read csid ≢ csid)
unfolding gen_basic_header write2_bytes
read_fmt_csid-gen fmt csid rest s hf lo hi = elim (Bool-cases (ltb csid 320)) [
  | inl short ↦ (
    (fmt * 64) ∷ (csid % 256) ∷ [],
    ground (arith, high_bits fmt hf),
    ground (
      arith,
      read_two fmt (csid % 256) rest (record s { recv = (fmt * 64) ∷ (csid % 256) ∷ rest }) hf refl,
    ),
    ground arith,
  )
  | inr long ↦ (
    (fmt * 64 + 1) ∷ write2_bytes (csid % 65536),
    ground (arith, low_bit fmt hf),
    ground (
      arith,
      read_three fmt (csid / 256 % 256) (csid % 256) rest
          (record s { recv = (fmt * 64 + 1) ∷ (csid / 256 % 256) ∷ (csid % 256) ∷ rest }) hf refl,
    ),
    ground arith,
  )
]

rtmp_codes : rtmp_need_read_more ≢ rtmp_ok
rtmp_codes e = cc

-- What is read from the second byte on is not what is read from both.
one_byte_less :
    (low : ℕ) (rest : List ℕ) (s : Session) (f g x : ℕ)
    → low < 64
    → read_csid low rest (record s { recv = rest; fmt = g; csid = low })
      ≢ (rtmp_ok, record s { recv = rest; fmt = f; csid = 64 + x })
unfolding read_csid
one_byte_less zero [] s f g x h e = absurd (rtmp_codes (ap (λ r. r.0) e))
one_byte_less zero (y ∷ ys) s f g x h e = absurd (omega (arith, ap (λ r. length r.1.recv) e))
one_byte_less (suc zero) [] s f g x h e = absurd (rtmp_codes (ap (λ r. r.0) e))
one_byte_less (suc zero) (a ∷ []) s f g x h e = absurd (rtmp_codes (ap (λ r. r.0) e))
one_byte_less (suc zero) (a ∷ b ∷ r) s f g x h e =
    absurd (omega (arith, ap (λ r. length r.1.recv) e))
one_byte_less (suc (suc low)) rest s f g x h e = absurd (omega (arith, ap (λ r. r.1.csid) e))

-- A basic header of two bytes, the first with any format, that arrives in two parts. ReadFmtCsid on the
-- first byte alone asks for more. Whatever comes then, its next call does with it just what it does where
-- the first byte never came: the byte is lost. Had both bytes come at once, with any second one, it
-- would have returned the format of the first and the id that is 64 more than the second, and left the
-- rest; the next call never returns that.
pub read_fmt_csid_split :
    (b x : ℕ) (rest : List ℕ) (s : Session)
    → b % 64 ≡ 0
    → (t : Session) × (read_fmt_csid (record s { recv = b ∷ [] }) ≡ (rtmp_need_read_more, t))
      × (t.fmt_ready ≡ s.fmt_ready)
      × (read_fmt_csid (record t { recv = t.recv ++ x ∷ rest })
          ≡ read_fmt_csid (record s { recv = x ∷ rest }))
      × (read_fmt_csid (record s { recv = x ∷ rest })
          ≢ (rtmp_ok, record s { recv = rest; fmt = b / 64 % 4; csid = 64 + x }))
      × (read_fmt_csid (record s { recv = b ∷ x ∷ rest })
          ≡ (rtmp_ok, record s { recv = rest; fmt = b / 64 % 4; csid = 64 + x }))
unfolding read_fmt_csid read_csid
read_fmt_csid_split b x rest s hb = (
  record s { recv = []; fmt = b / 64 % 4; csid = 0 },
  rw (hb, read_csid) refl,
  refl,
  refl,
  one_byte_less (x % 64) rest s (b / 64 % 4) (x / 64 % 4) x (omega arith),
  rw (hb, read_csid) refl,
)

-- GenData never writes an extended timestamp: of a timestamp of 2^24 or more whose low 24 bits are
-- not all ones, the receiver of the first chunk gets those 24 bits.
pub timestamp_truncated :
    (m : Message) (size total : ℕ) (bytes : List ℕ) (c : ChunkStream)
    → m.csid < 64
    → 2 ^ 24 ≤ m.timestamp
    → m.timestamp % 2 ^ 24 < 0xffffff
    → c.phase ≡ phase_header
    → (d : ChunkStream) × (read_message_header 0 m.csid c (drop 1 (chunk_of m 0 size total bytes))
        ≡ some (rtmp_ok, d, bytes))
      × (d.timestamp32 ≡ m.timestamp % 2 ^ 24)
      × (d.timestamp32 ≢ m.timestamp)
unfolding write3_bytes write4_bytes
timestamp_truncated m size total bytes c h ht lo hp = (
  _,
  ap (λ l. read_message_header 0 m.csid c (drop 1 l)) (first_chunk m size total bytes h)
      ∙ header0 m.csid _ _ _ _ _ _ m.type_id _ _ _ _ c bytes hp (omega arith),
  omega arith,
  omega arith,
)
