-- ===== src/Mpegts/Aac/Tests.antt =====
-- A frame of AAC at concrete bytes.
use cpp_streamer.Base.{ℕ, ◌≡◌, refl, true, false, Option, none, some, List, [], ◌∷◌, ◌++◌, arith}
use cpp_streamer.Base.Outcome.{done}
use cpp_streamer.Flv.{audio, aac}
use cpp_streamer.Nalu.Laws.{concat}
use cpp_streamer.AudioHeader.Laws.{adts_fields}
use cpp_streamer.Mpegts.Pes.{pid_of, is_video}
use cpp_streamer.Mpegts.State.{MpegtsDemux, program}
use cpp_streamer.Mpegts.Demux.{decode, on_callback}
use cpp_streamer.Mpegts.PsiReader.{is_pmt}
use cpp_streamer.Mpegts.Units.{Carries, times}
use cpp_streamer.Mpegts.First.{media}
use cpp_streamer.Mpegts.RoundTrip.{arrived}
use cpp_streamer.Mpegts.Pipeline.{on_callback_idle}
use cpp_streamer.Mpegts.Aac.{AacMuxer, AacPacket, with_adts, handle_audio_aac}
use cpp_streamer.Mpegts.Aac.Laws.{fields_of, adts_of, decode-handle_audio_aac}

abbrev frame : AacPacket
frame = record {
  packet = record {
    av_type = audio;
    codec_type = aac;
    is_seq_hdr = false;
    is_key_frame = false;
    dts = 20;
    pts = 20;
    bytes = 33 ∷ 16 ∷ 5 ∷ [];
  };
  has_flv_audio_asc = false;
  aac_asc_type = 2;
  sample_rate = 0;
  channel = 0;
  start = 200;
}

abbrev stereo : AacMuxer
stereo = record {
  pes = record { video_cc = 0; audio_cc = 15 };
  audio_codec_type = aac;
  aac_type = 2;
  sample_rate = 44100;
  channel = 2;
}

abbrev listening : MpegtsDemux
listening = record {
  pid_vec = program 1 0x1001 ∷ [];
  stream_pid_vec = record { stream_type = 0x0f; elementary_pid = 0x101; es_info = [] } ∷ [];
  held = [];
  last_pid = 0;
  last_dts = 0;
  last_pts = 0;
  sent = [];
}

abbrev no_opus : List ℕ → Option (List (List ℕ))
no_opus bytes = none

is_sound : media frame.packet ≡ false
unfolding is_video
is_sound = refl

sound_once : Carries (pid_of (media frame.packet)) listening
unfolding is_video times is_pmt
sound_once = record { not_pmt = refl; once = refl }

nothing_held : on_callback no_opus listening ≡ done listening
nothing_held = on_callback_idle no_opus listening refl

decode-handle_audio_aac_example :
    (m' : AacMuxer) × (units : List (List ℕ)) × (handle_audio_aac frame stereo ≡ done (m', units))
    × (decode no_opus (concat units) listening
        ≡ done (true, arrived (with_adts stereo frame) listening))
    × (adts_fields (with_adts stereo frame).bytes ≡ some (fields_of stereo frame))
    × ((with_adts stereo frame).bytes ≡ adts_of stereo frame ++ frame.packet.bytes)
decode-handle_audio_aac_example =
    decode-handle_audio_aac no_opus frame stereo listening listening refl (omega arith) refl
      is_sound (omega arith) (omega arith) (omega arith) (omega arith) sound_once nothing_held
