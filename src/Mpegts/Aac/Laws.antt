-- ===== src/Mpegts/Aac/Laws.antt =====
-- src/format/mpegts: a frame of AAC through the muxer's handler and the demuxer.
use cpp_streamer.Base.{
  ℕ, ◌+◌, ◌*◌, ◌%◌, ◌^◌, ◌<◌, ◌≤◌, ◌≡◌, refl, ap, ◌∙◌, true, false, ◌&&◌, ◌||◌, Option, some, List,
  [], ◌++◌, arith, leb, ◌==◌, length, inl, length-append,
}
use cpp_streamer.Base.Outcome.{done}
use cpp_streamer.Nalu.Laws.{concat}
use cpp_streamer.AudioHeader.{get_adts_type_by_asc_type, get_samplerate_index, make_adts}
use cpp_streamer.AudioHeader.Laws.{AdtsFields, adts_fields, adts_fields-make_adts}
use cpp_streamer.Mpegts.Pes.{pid_of}
use cpp_streamer.Mpegts.State.{MpegtsDemux}
use cpp_streamer.Mpegts.Demux.{decode, on_callback}
use cpp_streamer.Mpegts.Units.{Carries}
use cpp_streamer.Mpegts.First.{media}
use cpp_streamer.Mpegts.RoundTrip.{arrived, decode-write_pes}
use cpp_streamer.Mpegts.Aac.{AacMuxer, AacPacket, put_front, with_adts, handle_audio_aac}

-- The muxer has seen a configuration.
abbrev pub IsConfigured : AacMuxer → Type 0
IsConfigured m = (m.aac_type == 0 || m.sample_rate == 0 || m.channel == 0) ≡ false

-- What the header in front of the frame has to say.
abbrev pub fields_of : AacMuxer → AacPacket → AdtsFields
fields_of m p = record {
  object_type = get_adts_type_by_asc_type p.aac_asc_type;
  index = get_samplerate_index m.sample_rate;
  channels = m.channel;
  frame_length = length (with_adts m p).bytes;
}

adts_type_bounds : (t : ℕ) → (1 ≤ get_adts_type_by_asc_type t) × (get_adts_type_by_asc_type t ≤ 4)
unfolding get_adts_type_by_asc_type
adts_type_bounds t = ground arith

unfoldable pub adts_of : AacMuxer → AacPacket → List ℕ
adts_of m p =
    make_adts (get_adts_type_by_asc_type p.aac_asc_type) m.sample_rate m.channel
      (length p.packet.bytes)

length-adts_of : (m : AacMuxer) (p : AacPacket) → m.channel < 8 → length (adts_of m p) ≡ 7
unfolding adts_of
length-adts_of m p h =
    let (low, high) = adts_type_bounds p.aac_asc_type in
    (adts_fields-make_adts _ m.sample_rate m.channel _ [] low high h).1

with_adts-bytes :
    (m : AacMuxer) (p : AacPacket)
    → m.channel < 8
    → 7 ≤ p.start
    → (with_adts m p).bytes ≡ adts_of m p ++ p.packet.bytes
unfolding with_adts put_front adts_of
with_adts-bytes m p h room =
    let e : leb (length (adts_of m p)) p.start ≡ true = ground (arith, length-adts_of m p h) in
    rw (put_front, e) refl

length-with_adts :
    (m : AacMuxer) (p : AacPacket)
    → m.channel < 8
    → 7 ≤ p.start
    → length (with_adts m p).bytes ≡ length p.packet.bytes + 7
length-with_adts m p h room =
    let e : length (adts_of m p ++ p.packet.bytes) ≡ length (adts_of m p) + length p.packet.bytes =
      length-append (adts_of m p) p.packet.bytes in
    ap length (with_adts-bytes m p h room) ∙ e ∙ omega (arith, length-adts_of m p h)

adts_fields-with_adts :
    (m : AacMuxer) (p : AacPacket)
    → m.channel < 8
    → 7 ≤ p.start
    → length p.packet.bytes + 7 < 2 ^ 13
    → adts_fields (with_adts m p).bytes ≡ some (fields_of m p)
unfolding adts_of
adts_fields-with_adts m p h room short =
    let (low, high) = adts_type_bounds p.aac_asc_type in
    let size : (length p.packet.bytes + 7) % 2 ^ 13 ≡ length (with_adts m p).bytes =
      omega (arith, length-with_adts m p h room) in
    ap adts_fields (with_adts-bytes m p h room)
    ∙ (adts_fields-make_adts _ m.sample_rate m.channel _ p.packet.bytes low high h).0
    ∙ ap (λ k. some (record (fields_of m p) { frame_length = k })) size

module _ (opus_frames : List ℕ → Option (List (List ℕ))) where
  -- HandleAudioAac, once configured with fewer than 8 channels, for a packet of sound that is no
  -- configuration, has 7 bytes of room in front of its data, and whose data with the header is shorter than
  -- 2^13 bytes: it returns, and a demuxer that has the stream and can output what it holds reads the units
  -- with code 0 and then holds the packet with seven bytes more. These say the type of the packet and the
  -- rate and channels of the configuration, and their length field is the number of bytes that the
  -- demuxer holds. The times are below 2^31 in units of 1/90 ms.
  pub decode-handle_audio_aac :
      (p : AacPacket) (m : AacMuxer) (d d0 : MpegtsDemux)
      → IsConfigured m
      → m.channel < 8
      → (p.packet.is_seq_hdr && p.has_flv_audio_asc) ≡ false
      → media p.packet ≡ false
      → 7 ≤ p.start
      → length p.packet.bytes + 7 < 2 ^ 13
      → p.packet.dts * 90 < 2 ^ 31
      → p.packet.pts * 90 < 2 ^ 31
      → Carries (pid_of (media p.packet)) d
      → on_callback opus_frames d ≡ done d0
      → (m' : AacMuxer) × (units : List (List ℕ)) × (handle_audio_aac p m ≡ done (m', units))
        × (decode opus_frames (concat units) d ≡ done (true, arrived (with_adts m p) d0))
        × (adts_fields (with_adts m p).bytes ≡ some (fields_of m p))
        × ((with_adts m p).bytes ≡ adts_of m p ++ p.packet.bytes)
  unfolding handle_audio_aac
  decode-handle_audio_aac p m d d0 conf h plain kind room short hd hp c flush =
      let (w, units, written, sizes, read) =
        decode-write_pes opus_frames (with_adts m p) m.pes d d0
          (omega (arith, length-with_adts m p h room))
          (inl (ap (λ b. b && p.packet.is_key_frame) kind)) hd hp c flush in
      (
        record m { pes = w },
        units,
        rw (handle_audio_aac, plain, conf, written) refl,
        read,
        adts_fields-with_adts m p h room short,
        with_adts-bytes m p h room,
      )
