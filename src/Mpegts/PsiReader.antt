-- ===== src/Mpegts/PsiReader.antt =====
-- src/format/mpegts/mpegts_demux.cpp: the tables of programs and of streams in DecodeUnit.
use cpp_streamer.Base.{
  ℕ, zero, suc, ◌+◌, ◌-◌, ◌*◌, ◌/◌, ◌%◌, Bool, true, false, not, ◌&&◌, ◌||◌, List, [], ◌∷◌, ltb,
  leb, ◌==◌, if◌then◌else◌, take, drop,
}
use cpp_streamer.Base.Outcome.{Outcome, done, fault, ◌>>=◌}
use cpp_streamer.Mpegts.State.{PidInfo, StreamPidInfo, MpegtsDemux, at, need, network, program}

abbrev word : List ℕ → ℕ → Outcome ℕ
word b pos = do a ← at b pos; c ← at b (pos + 1); done (a * 0x100 + c)

-- The programs of a PAT, from `pos` on.
unfoldable pub pat_loop : ℕ → List ℕ → ℕ → Outcome (List PidInfo)
pat_loop zero b pos = done []
pat_loop (suc n) b pos = do
  number ← word b pos
  id ← word b (pos + 2)
  more ← pat_loop n b (pos + 4)
  done ((if number == 0 then network (id % 0x2000) else program number (id % 0x2000)) ∷ more)

-- The code (`false` is -1) and the demuxer.
unfoldable pub read_pat : Bool → ℕ → List ℕ → MpegtsDemux → Outcome (Bool × MpegtsDemux)
unfolding pat_loop
read_pat start npos b d = do
  let pos = if start then npos + 1 else npos
  table_id ← at b pos
  size ← word b (pos + 1)
  _ ← need b (pos + 8)
  let section_length = size % 0x1000
  if not (table_id == 0) || leb (188 - npos) (section_length + 3) then done (false, d) else (do
    infos ← pat_loop ((section_length + npos - (pos + 8)) / 4) b (pos + 8)
    done (true, record d { pid_vec = infos }))

unfoldable pub descriptors : ℕ → List ℕ → ℕ → ℕ → Outcome (ℕ × List (ℕ × List ℕ))
descriptors zero b pos end = fault
descriptors (suc fuel) b pos end = elim (ltb pos end) [
  | false ↦ done (pos, [])
  | true ↦ (do
    tag ← at b pos
    len ← at b (pos + 1)
    _ ← need b (pos + 2 + len)
    more ← descriptors fuel b (pos + 2 + len) end
    done (more.0, (tag, take len (drop (pos + 2) b)) ∷ more.1))
]

-- The streams of a PMT, from `pos` to `end`.
unfoldable pub pmt_loop : ℕ → List ℕ → ℕ → ℕ → Outcome (List StreamPidInfo)
unfolding descriptors
pmt_loop zero b pos end = fault
pmt_loop (suc fuel) b pos end = elim (leb (pos + 5) end) [
  | false ↦ done []
  | true ↦ (do
    type ← at b pos
    pid ← word b (pos + 1)
    info ← word b (pos + 3)
    let limit = pos + 5 + info % 0x1000
    elim (ltb end limit) [
      | true ↦ done []
      | false ↦ (do
        infos ← descriptors (suc limit) b (pos + 5) limit
        more ← pmt_loop fuel b infos.0 end
        done (
            record { stream_type = type; elementary_pid = pid % 0x2000; es_info = infos.1 } ∷ more))
    ])
]

unfoldable pub read_pmt : Bool → ℕ → List ℕ → MpegtsDemux → Outcome (Bool × MpegtsDemux)
unfolding pmt_loop
read_pmt start npos b d = do
  let pos = if start then npos + 1 else npos
  table_id ← at b pos
  size ← word b (pos + 1)
  info_length ← word b (pos + 10)
  let section_end = size % 0x1000 + npos
  let streams = pos + 12 + info_length % 0x1000
  if not (table_id == 2) then done (false, d) else (do
    _ ← need b streams
    infos ← pmt_loop (suc section_end) b streams section_end
    done (true, record d { stream_pid_vec = infos }))

-- IsPmt
unfoldable pub is_pmt : ℕ → List PidInfo → Bool
is_pmt pid [] = false
is_pmt pid (network n ∷ infos) = is_pmt pid infos
is_pmt pid (program number id ∷ infos) = (not (number == 0) && id == pid) || is_pmt pid infos
