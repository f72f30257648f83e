-- ===== src/Mpegts/Tests.antt =====
-- MPEG-TS: witnesses and runs.
use cpp_streamer.Base.{◌&&◌, ◌||◌}
use cpp_streamer.Base.{
  ℕ, ◌+◌, ◌<◌, ◌≡◌, ◌≢◌, refl, true, false, Option, none, List, [], ◌∷◌, ◌++◌, arith, length, All,
  inr, if◌then◌else◌,
}
use cpp_streamer.Base.Outcome.{fault, done}
use cpp_streamer.Flv.{MediaPacket, audio, video, aac, h264, vp8}
use cpp_streamer.Nalu.Laws.{concat}
use cpp_streamer.Mpegts.Pes.{PesMuxer, write_pes, header_of, pes_header, is_video, pid_of, ones}
use cpp_streamer.Mpegts.Psi.{
  PsiMuxer, new_pat_data, write_tables, generate_pmt, generate_pat, video_entry, audio_entry,
}
use cpp_streamer.Mpegts.State.{MpegtsDemux, program}
use cpp_streamer.Mpegts.Demux.{decode, on_callback}
use cpp_streamer.Mpegts.PesReader.{pes_parse}
use cpp_streamer.Mpegts.PsiReader.{is_pmt}
use cpp_streamer.Mpegts.Units.{Carries, times}
use cpp_streamer.Mpegts.Rounds.{with_clock}
use cpp_streamer.Mpegts.Times.{overflows, found, widened, reduced, both, pes_parse-pes_header}
use cpp_streamer.Mpegts.Tables.{Starts, tuned, decode-write_tables}
use cpp_streamer.Mpegts.First.{Fits, media, length-header_of}
use cpp_streamer.Mpegts.RoundTrip.{arrived, decode-write_pes}
use cpp_streamer.Mpegts.Pipeline.{heard, passed, decode_stream, on_callback_idle}
use cpp_streamer.Mpegts.KeyFrames.{key_frame_lost}
use cpp_streamer.Mpegts.Checksums.{
  entry_read, table_entry, remainder, pmt_sent, pat_sent, table_checksums,
}

-- A packet of sound, and one more; a key frame, and its length is what decides.
abbrev sound : MediaPacket
unfolding ones
sound = record {
  av_type = audio;
  codec_type = aac;
  is_seq_hdr = false;
  is_key_frame = false;
  dts = 20;
  pts = 20;
  bytes = ones 210;
}

abbrev picture : MediaPacket
picture = record sound {
  av_type = video;
  codec_type = h264;
  is_key_frame = true;
  dts = 20;
  pts = 60;
}

abbrev flash : MediaPacket
flash = record picture { bytes = 0 ∷ 0 ∷ 0 ∷ 1 ∷ 0x65 ∷ [] }

abbrev ready : MpegtsDemux
ready = record {
  pid_vec = program 1 0x1001 ∷ [];
  stream_pid_vec =
      record { stream_type = 0x1b; elementary_pid = 0x100; es_info = [] }
      ∷ record { stream_type = 0x0f; elementary_pid = 0x101; es_info = [] }
      ∷ [];
  held = [];
  last_pid = 0;
  last_dts = 0;
  last_pts = 0;
  sent = [];
}

abbrev fresh : MpegtsDemux
fresh = record ready { pid_vec = []; stream_pid_vec = [] }

abbrev counters : PesMuxer
counters = record { video_cc = 0; audio_cc = 15 }

abbrev psi : PsiMuxer
psi = record {
  has_video = true;
  has_audio = true;
  video_codec = vp8;
  audio_codec = aac;
  pat_data = new_pat_data;
}

abbrev no_opus : List ℕ → Option (List (List ℕ))
no_opus bytes = none

video_once : Carries (pid_of (media picture)) ready
unfolding is_video times is_pmt
video_once = record { not_pmt = refl; once = refl }

nothing_held : on_callback no_opus ready ≡ done ready
nothing_held = on_callback_idle no_opus ready refl

has_clock : with_clock flash ≡ true
unfolding is_video
has_clock = refl

short : length flash.bytes + length (header_of flash) < 176
unfolding header_of pes_header is_video
short = omega (arith, length-header_of flash)

long : Fits picture
unfolding ones
long = inr (omega (arith, length-header_of picture))

decode-write_pes_example :
    (m' : PesMuxer) × (units : List (List ℕ)) × (write_pes picture counters ≡ done (m', units))
    × All (λ u. length u ≡ 188) units
    × (decode no_opus (concat units) ready ≡ done (true, arrived picture ready))
unfolding ones
decode-write_pes_example =
    decode-write_pes no_opus picture counters ready ready (omega arith) long (omega arith)
      (omega arith) video_once nothing_held

key_frame_lost_example :
    (m' : PesMuxer) × (unit : List ℕ) × (write_pes flash counters ≡ done (m', unit ∷ []))
    × (length unit ≡ 188)
    × (decode no_opus unit ready ≡ done (false, ready))
key_frame_lost_example =
    key_frame_lost no_opus flash counters ready ready has_clock (omega arith) short video_once
      nothing_held

starts : Starts psi.pat_data
unfolding ones
starts = refl

decode-write_tables_example :
    (decode no_opus (concat (write_tables psi).1) fresh ≡ done (true, tuned psi fresh))
    × (psi.has_video ≡ true → Carries 0x100 (tuned psi fresh))
    × (psi.has_audio ≡ true → Carries 0x101 (tuned psi fresh))
    × Starts (write_tables psi).0.pat_data
decode-write_tables_example = decode-write_tables no_opus psi fresh starts

is_sound : media sound ≡ false
unfolding is_video sound
is_sound = refl

picture_once : Carries (pid_of (media picture)) (tuned psi fresh)
unfolding is_video
picture_once = decode-write_tables_example.1 refl

decode_stream_example :
    (w1 w2 : PesMuxer) × (us vs : List (List ℕ)) × (write_pes sound counters ≡ done (w1, us))
    × (write_pes picture w1 ≡ done (w2, vs))
    × (d1 d2 d3 : MpegtsDemux) × (decode no_opus (concat (write_tables psi).1) fresh
        ≡ done (true, d1))
    × (decode no_opus (concat us) d1 ≡ done (true, d2))
    × (decode no_opus (concat vs) d2 ≡ done (true, d3))
    × (d1.sent ≡ fresh.sent)
    × (d2.sent ≡ fresh.sent)
    × (d3.sent ≡ fresh.sent ++ heard sound ∷ [])
    × (d3 ≡ arrived picture (passed sound (tuned psi fresh)))
unfolding ones
decode_stream_example =
    decode_stream no_opus psi sound picture counters fresh starts refl refl refl is_sound
      (omega arith) (omega arith) long (omega arith) (omega arith) (omega arith) (omega arith)
      picture_once

-- Seven hours into the stream.
pes_parse-pes_header_example : pes_parse (pes_header 5 false 2268000000 2268000000 ++ (7 ∷ [])) ≡ (
    if overflows (reduced 2268000000)
      || (both false 2268000000 2268000000 && overflows (reduced 2268000000))
    then fault
    else done (found false 2268000000 2268000000))
pes_parse-pes_header_example = pes_parse-pes_header 5 false 2268000000 2268000000 (7 ∷ [])

-- Fourteen hours into the stream.
overflow_test : overflows (reduced 4536000000) ≡ true
unfolding overflows reduced
overflow_test = refl

widened_test : widened (reduced 2268000000) ≡ 18446744071682584320
unfolding widened reduced
widened_test = refl

table_checksums_example :
    ((i : ℕ) → i < 256 → entry_read i ≡ table_entry i)
    × ((rest : List ℕ) × (generate_pmt psi
          ≡ (0x47 ∷ 0x50 ∷ 1 ∷ 0x10 ∷ 0 ∷ [])
            ++ (pmt_sent (video_entry psi ++ audio_entry psi) ++ rest)))
    × (remainder (pmt_sent (video_entry psi ++ audio_entry psi)) ≡ 0)
    × ((rest : List ℕ) × (generate_pat new_pat_data
          ≡ (0x47 ∷ 0x40 ∷ 0 ∷ 0x10 ∷ 0 ∷ []) ++ (pat_sent ++ rest)))
    × (remainder pat_sent ≢ 0)
table_checksums_example = table_checksums psi
