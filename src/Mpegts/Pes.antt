-- ===== src/Mpegts/Pes.antt =====
-- src/format/mpegts/mpegts_mux.cpp: WritePes, which cuts a packet of audio or video into units of 188
-- bytes. A timestamp is not negative. A unit is built from its front: the source's index `i` is the length
-- of what is written, and a write past the end of the unit is left out, as it is in the source.
use cpp_streamer.Base.{
  ℕ, zero, suc, ◌+◌, ◌-◌, ◌*◌, ◌/◌, ◌%◌, ◌^◌, min, bit_or, Bool, true, false, not, ◌&&◌, ◌||◌, List,
  [], ◌∷◌, ◌++◌, ltb, leb, ◌==◌, if◌then◌else◌, length, take, drop,
}
use cpp_streamer.Base.Outcome.{Outcome, done, fault, ◌>>=◌}
use cpp_streamer.Utils.ByteStream.{byte_of}
use cpp_streamer.Flv.{AvType, MediaPacket, video}

-- The part of the muxer that WritePes reads and changes.
pub record PesMuxer : Type 0 where
  pub video_cc : ℕ
  pub audio_cc : ℕ

abbrev pub ts_packet_size : ℕ
ts_packet_size = 188

unfoldable pub is_video : AvType → Bool
is_video video = true
is_video other = false

-- video_pid_ and audio_pid_, which nothing changes.
abbrev pub pid_of : Bool → ℕ
pid_of true = 0x100
pid_of false = 0x101

-- WriteTs: three groups of bits, each with a marker bit behind it.
unfoldable pub write_ts : ℕ → ℕ → List ℕ
write_ts flag stamp =
    let ts = if ltb 0x1ffffffff stamp then stamp - 0x1ffffffff else stamp in
    let middle = ts / 2 ^ 15 % 2 ^ 15 * 2 + 1 in
    let low = ts % 2 ^ 15 * 2 + 1 in
    ((flag * 16 + ts / 2 ^ 30 % 8 * 2 + 1) % 256)
    ∷ byte_of middle 0x100
    ∷ byte_of middle 1
    ∷ byte_of low 0x100
    ∷ byte_of low 1
    ∷ []

-- WritePcr
unfoldable pub write_pcr : ℕ → List ℕ
write_pcr pcr =
    byte_of pcr (2 ^ 25)
    ∷ byte_of pcr (2 ^ 17)
    ∷ byte_of pcr (2 ^ 9)
    ∷ byte_of pcr 2
    ∷ (pcr % 2 * 128 + 0x7e)
    ∷ 0
    ∷ []

-- WritePesHeader. `both` is that the decoding time is written too.
unfoldable pub pes_header : ℕ → Bool → ℕ → ℕ → List ℕ
unfolding write_ts
pes_header data_size v dts pts =
    let both = v && not (dts == pts) in
    let flags = if both then 0xc0 else 0x80 in
    let header_len = if both then 10 else 5 in
    let whole = data_size + header_len + 3 in
    let packet_len = if ltb 0xffff whole then 0 else whole in
    0
    ∷ 0
    ∷ 1
    ∷ (if v then 0xe0 else 0xc0)
    ∷ byte_of packet_len 0x100
    ∷ byte_of packet_len 1
    ∷ 0x80
    ∷ flags
    ∷ header_len
    ∷ (write_ts (flags / 64) pts ++ (if both then write_ts 1 dts else []))

unfoldable pub ones : ℕ → List ℕ
ones zero = []
ones (suc n) = 0xff ∷ ones n

-- AdaptationBufInit on `size` bytes; with `remain` 1 only the first is written.
unfoldable pub adaptation_buf_init : ℕ → ℕ → List ℕ
unfolding ones
adaptation_buf_init size remain =
    let length_byte = (remain + 255) % 256 in
    if remain == 1 then length_byte ∷ [] else length_byte ∷ 0 ∷ ones (size - 2)

-- The first four bytes of a unit.
unfoldable pub ts_header : Bool → ℕ → Bool → Bool → List ℕ
ts_header v counter first adaptation =
    0x47
    ∷ bit_or (pid_of v / 256) (if first then 0x40 else 0)
    ∷ pid_of v % 256
    ∷ (0x10 + (if adaptation then 0x20 else 0) + counter % 16)
    ∷ []

-- The adaptation field with the clock, in the first unit of a key frame.
unfoldable pub pcr_field : Bool → MediaPacket → List ℕ
unfolding write_pcr is_video
pcr_field first p =
    if first && is_video p.av_type && p.is_key_frame then 7 ∷ 0x50 ∷ write_pcr (p.dts * 90) else []

-- `remain_bytes` is eight bits wide, and so is `data_len` below.
unfoldable pub stuffing : Bool → ℕ → ℕ → List ℕ
unfolding adaptation_buf_init
stuffing first i left =
    let remain = if first then (184 + 512 - left - (i - 4)) % 256 else 184 - left in
    if leb 184 left then [] else take remain (adaptation_buf_init (ts_packet_size - i) remain)

unfoldable pub data_room : Bool → ℕ → ℕ → ℕ
data_room first i left = if leb 184 left then (if first then 184 - (i - 4) else 184) else left

-- packet_bytes_len, and the data from `wBytes` on.
pub record Pending : Type 0 where
  pub left : ℕ
  pub rest : List ℕ

-- The copy of the data at the end of a round; a read past the data is a fault.
unfoldable pub put_data : List ℕ → ℕ → ℕ → List ℕ → Outcome (List ℕ × Pending)
put_data front left room rest =
    let n = min (ts_packet_size - length front) room in
    if leb ts_packet_size (length front)
    then done (front, record { left = left; rest = rest })
    else if ltb (length rest) n
    then fault
    else done (front ++ take n rest, record { left = left - n; rest = drop n rest })

-- A round of the loop, with the counter already raised.
unfoldable pub ts_round : MediaPacket → List ℕ → ℕ → Bool → Pending → Outcome (List ℕ × Pending)
ts_round p header counter first s =
    let pcr = pcr_field first p in
    let i = 4 + length pcr in
    let adaptation = ltb 4 i || not (leb 184 s.left) in
    let front =
      ts_header (is_video p.av_type) counter first adaptation ++ (pcr ++ stuffing first i s.left) in
    let pes = if first then take (ts_packet_size - length front) header else [] in
    put_data (front ++ pes) (s.left - length pes)
      ((data_room first i s.left + 256 - length pes) % 256) s.rest

abbrev pub next_cc : ℕ → ℕ
next_cc counter = let raised = (counter + 1) % 256 in if ltb 0xf raised then 0 else raised

-- The loop, with what it sends; fuel that runs out is a fault too.
unfoldable pub ts_loop : ℕ → MediaPacket → List ℕ → ℕ → Bool → Pending → Outcome (ℕ × List (List ℕ))
ts_loop zero p header counter first s = fault
ts_loop (suc fuel) p header counter first s = elim (ltb 0 s.left) [
  | false ↦ done (counter, [])
  | true ↦ (do
    r ← ts_round p header (next_cc counter) first s
    more ← ts_loop fuel p header (next_cc counter) false r.1
    done (more.0, r.0 ∷ more.1))
]

-- The header that WritePes writes for a packet.
unfoldable pub header_of : MediaPacket → List ℕ
unfolding pes_header is_video
header_of p = pes_header (length p.bytes) (is_video p.av_type) (p.dts * 90) (p.pts * 90)

unfoldable pub write_pes : MediaPacket → PesMuxer → Outcome (PesMuxer × List (List ℕ))
unfolding header_of is_video ts_header pcr_field stuffing data_room put_data ts_round ts_loop
write_pes p m =
    let v = is_video p.av_type in
    let header = header_of p in
    let total = length p.bytes + length header in
    (do
      r ←
          ts_loop (total + 2) p header (if v then m.video_cc else m.audio_cc) true
            (record { left = total; rest = p.bytes })
      done (if v then record m { video_cc = r.0 } else record m { audio_cc = r.0 }, r.1))
