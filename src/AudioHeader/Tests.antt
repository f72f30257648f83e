-- ===== src/AudioHeader/Tests.antt =====
-- The theorems on audio headers at concrete headers.
use cpp_streamer.Base.{ℕ, ◌+◌, ◌*◌, ◌/◌, ◌%◌, ◌≡◌, refl, some, [], ◌∷◌, ◌++◌, arith, length}
use cpp_streamer.Base.Outcome.{done}
use cpp_streamer.AudioHeader.{
  make_adts, get_samplerate_index, get_sample_rate_by_index, get_audio_info_by_asc,
  get_audio_info2_by_asc, mpeg4audio_sample_rates, rate_index,
}
use cpp_streamer.AudioHeader.Laws.{
  adts_fields, adts_fields-make_adts, configuration, audio_info_same,
}

adts_fields-make_adts_example :
    (adts_fields (make_adts 2 44100 2 300 ++ 1 ∷ [])
      ≡ some (record {
        object_type = 2;
        index = get_samplerate_index 44100;
        channels = 2;
        frame_length = 307;
      }))
    × (length (make_adts 2 44100 2 300) ≡ 7)
adts_fields-make_adts_example =
    adts_fields-make_adts 2 44100 2 300 (1 ∷ []) (omega arith) (omega arith) (omega arith)

index_test : get_samplerate_index 24000 ≡ 6
unfolding get_samplerate_index mpeg4audio_sample_rates rate_index
index_test = refl

-- Low complexity, 44100 Hz, two channels.
audio_info_same_example :
    (rate : ℕ) × (get_sample_rate_by_index (18 % 8 * 2 + 16 / 128) ≡ some rate)
    × (get_audio_info_by_asc 0 (18 ∷ 16 ∷ []) ≡ done (configuration 18 16 rate))
    × (get_audio_info2_by_asc (18 ∷ 16 ∷ []) ≡ done (some (configuration 18 16 rate)))
audio_info_same_example =
    audio_info_same 0 18 16 [] (omega arith) (omega arith) (λ e. omega arith) (λ e. omega arith)
      (omega arith) (omega arith)
