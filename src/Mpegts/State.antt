-- ===== src/Mpegts/State.antt =====
-- src/format/mpegts/mpegts_demux.hpp: the demuxer. A pointer is the memory from it on; what is read
-- outside of the memory is a fault. Of the tables the state has what is used: `pid_vec` is that of the
-- PAT, `stream_pid_vec` that of the PMT, in which the first entry for a number is also what
-- _pid2steamtype has. `held` is the bytes of _data_buffer_vec one after another, whose number is
-- _data_total; `sent` is what Output is called with.
use cpp_streamer.Base.{ℕ, ◌/◌, ◌%◌, Bool, List, ◌++◌, leb, ◌==◌, if◌then◌else◌, length, get_elem?}
use cpp_streamer.Base.Outcome.{Outcome, done, fault, access}
use cpp_streamer.Flv.{MediaPacket}

-- PID_INFO, of which one of the two numbers is set.
pub data PidInfo : Type 0 where
  network : ℕ → PidInfo
  program : ℕ → ℕ → PidInfo

-- STREAM_PID_INFO; a descriptor is its tag and its bytes.
pub record StreamPidInfo : Type 0 where
  pub stream_type : ℕ
  pub elementary_pid : ℕ
  pub es_info : List (ℕ × List ℕ)

pub record MpegtsDemux : Type 0 where
  pub pid_vec : List PidInfo
  pub stream_pid_vec : List StreamPidInfo
  pub held : List ℕ
  pub last_pid : ℕ
  pub last_dts : ℕ
  pub last_pts : ℕ
  pub sent : List MediaPacket

abbrev pub at : List ℕ → ℕ → Outcome ℕ
at b i = access (get_elem? b i)

-- The first `n` bytes are there.
abbrev pub need : List ℕ → ℕ → Outcome (Unit {0})
need b n = if leb n (length b) then done tt else fault

abbrev pub flag : ℕ → ℕ → Bool
flag byte unit = byte / unit % 2 == 1

-- InsertIntoDatabuf
unfoldable pub insert_into_databuf : List ℕ → ℕ → MpegtsDemux → MpegtsDemux
insert_into_databuf bytes pid d = record d { held = d.held ++ bytes; last_pid = pid }
