-- ===== src/Mpegts/PesReader.antt =====
-- src/format/mpegts/mpegts_demux.cpp: PesParse, and the adaptation field in DecodeUnit.
use cpp_streamer.Base.{
  ℕ, ◌+◌, ◌-◌, ◌*◌, ◌/◌, ◌%◌, ◌^◌, Bool, not, ◌||◌, List, ltb, ◌==◌, if◌then◌else◌, leb,
}
use cpp_streamer.Base.Outcome.{Outcome, done, ◌>>=◌, fault}
use cpp_streamer.Mpegts.State.{at, need, flag}

-- The 33 bits of a timestamp, put together in an `int` and made a uint64_t, which repeats its sign. The
-- highest of them is shifted out of the `int`, which is undefined behaviour.
unfoldable pub read_ts : List ℕ → ℕ → Outcome ℕ
read_ts p pos = do
  a ← at p pos
  b ← at p (pos + 1)
  c ← at p (pos + 2)
  d ← at p (pos + 3)
  e ← at p (pos + 4)
  let bits =
      (a / 2 % 8 * 2 ^ 30 + b * 2 ^ 22 + c / 2 % 128 * 2 ^ 15 + d * 2 ^ 7 + e / 2 % 128) % 2 ^ 32
  if leb 4 (a / 2 % 8)
      then fault
      else done (if ltb bits (2 ^ 31) then bits else bits + (2 ^ 64 - 2 ^ 32))

-- What PesParse returns: 255 for an error, or where the data begins with the two times.
pub data PesResult : Type 0 where
  pes_error : PesResult
  pes_data : ℕ → ℕ → ℕ → PesResult

-- The extension of the header, from its flags on.
unfoldable pub pes_extension : List ℕ → ℕ → Outcome ℕ
pes_extension p pos = do
  ext ← at p pos
  let after =
      pos
      + 1
      + (if flag ext 0x80 then 16 else 0)
      + (if flag ext 0x20 then 2 else 0)
      + (if flag ext 0x10 then 2 else 0)
  if flag ext 1 then (do n ← at p after; done (after + 1 + n % 128)) else done after

-- The optional fields behind the times.
unfoldable pub pes_options : List ℕ → ℕ → ℕ → Outcome ℕ
unfolding pes_extension
pes_options p flags pos = do
  let escr = pos + (if flag flags 0x20 then 6 else 0)
  let rate = escr + (if flag flags 0x10 then 3 else 0)
  _ ← need p (if flag flags 0x20 || flag flags 0x10 then rate else 0)
  let trick = rate + (if flag flags 0x08 then 1 else 0)
  _ ← need p (if flag flags 0x08 then trick else 0)
  let crc = trick + (if flag flags 0x04 then 1 else 0) + (if flag flags 0x02 then 2 else 0)
  if flag flags 1 then pes_extension p crc else done crc

unfoldable pub pes_times : List ℕ → ℕ → Outcome PesResult
unfolding read_ts pes_options
pes_times p flags =
    let kind = flags / 64 % 4 in
    if kind == 2
    then (do pts ← read_ts p 9; pos ← pes_options p flags 14; done (pes_data pos 0 pts))
    else if kind == 3
    then (do
      pts ← read_ts p 9
      dts ← read_ts p 14
      pos ← pes_options p flags 19
      done (pes_data pos dts pts))
    else (do pos ← pes_options p flags 9; done (pes_data pos 0 0))

-- The streams whose packets have no further header.
plain_stream : ℕ → Bool
plain_stream id =
    id == 188
    || id == 190
    || id == 191
    || id == 240
    || id == 241
    || id == 255
    || id == 242
    || id == 248

unfoldable pub pes_parse : List ℕ → Outcome PesResult
unfolding pes_times plain_stream
pes_parse p = do
  a ← at p 0
  b ← at p 1
  c ← at p 2
  id ← at p 3
  _ ← need p 6
  if not (a * 0x10000 + b * 0x100 + c == 1)
      then done pes_error
      else if plain_stream id
      then done (pes_data 6 0 0)
      else (do
        marker ← at p 6
        if not (marker / 64 % 4 == 2)
            then done pes_error
            else (do flags ← at p 7; _ ← at p 8; pes_times p flags))

-- Where the adaptation field ends, read from byte 4 on.
unfoldable pub adaptation_end : List ℕ → Outcome ℕ
adaptation_end b = do
  len ← at b 4
  if len == 0 then done 5 else (do
    flags ← at b 5
    let pos =
        6
        + (if flag flags 0x10 then 6 else 0)
        + (if flag flags 0x08 then 6 else 0)
        + (if flag flags 0x04 then 1 else 0)
    pos' ←
        if flag flags 0x02
        then (do n ← at b pos; _ ← need b (pos + 1 + n); done (pos + 1))
        else done pos
    if flag flags 1
        then (do _ ← at b pos'; _ ← at b (pos' + 1); done (5 + len))
        else done (5 + len))
