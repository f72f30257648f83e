-- ===== src/Amf/Codec/Fuel.antt =====
-- src/format/amf/amf0.hpp: the decoder ends, after as many rounds as the memory allows.
use cpp_streamer.Base.{ℕ, zero, suc, ◌+◌, ◌*◌, ◌≤◌, ◌<◌}
use cpp_streamer.Base.{◌≡◌, refl, true, false}
use cpp_streamer.Base.{none, some, List, [], ◌∷◌, arith}
use cpp_streamer.Base.{ltb, leb}
use cpp_streamer.Base.{length, length-drop}
use cpp_streamer.Amf.{
  AmfType, type_number, type_bool, type_string, type_object, type_null, type_undefined,
  type_reference,
}
use cpp_streamer.Amf.{
  type_mixedarray, type_object_end, type_array, type_date, type_long_string, type_unsupported,
  type_unknown, amf_type,
}
use cpp_streamer.Amf.{amf_obj, amf_array, unknown}
use cpp_streamer.Amf.{
  AmfFields, no_fields, AmfItems, no_items, push_back, insert, read_chars, ret, overrun, exhausted,
}
use cpp_streamer.Amf.Codec.{
  decode, decode_value, decode_object, decode_array, read1, read2, read4, read8, read_key, finished,
  refused, key_read, no_key, read_items, enough,
}
use cpp_streamer.Amf.Codec.Reads.{
  Ends, Advances, read1-length, read2-length, read4-length, read8-length, Ends-Ends, Ends-Advances,
  read_chars-length, get-Ends, map-Ends, KeyEnds, read_key-KeyEnds,
}

mutual
  unfolding decode decode_value decode_object decode_array

  decode-Advances :
      (fuel behind : ℕ) (bytes : List ℕ)
      → 2 * length bytes + 1 ≤ fuel
      → Advances (length bytes) (decode fuel behind bytes)
  decode-Advances zero behind bytes h = absurd (omega arith)
  decode-Advances (suc fuel) behind [] h = tt
  decode-Advances (suc fuel) behind (b ∷ bytes) h =
      elim (amf_type b)
        as (λ o. Advances (suc (length bytes)) (elim o [
          | none ↦ ret false unknown (b ∷ bytes)
          | some t ↦ decode_value fuel behind t bytes
        ])) [
          | none ↦ omega arith
          | some t ↦
              Ends-Advances (length bytes) (suc (length bytes)) (decode_value fuel behind t bytes)
                (decode_value-Ends fuel behind t bytes (omega arith)) (omega arith)
        ]

  decode_value-Ends :
      (fuel behind : ℕ) (t : AmfType) (bytes : List ℕ)
      → 2 * length bytes + 2 ≤ fuel
      → Ends (length bytes) (decode_value fuel behind t bytes)
  decode_value-Ends zero behind t bytes h = absurd (omega arith)
  decode_value-Ends (suc fuel) behind type_number bytes h =
      get-Ends (length bytes) (read8 bytes) _ (λ v rest e. read8-length bytes v rest e)
  decode_value-Ends (suc fuel) behind type_bool bytes h =
      get-Ends (length bytes) (read1 bytes) _
        (λ v rest e. omega (arith, read1-length bytes v rest e))
  decode_value-Ends (suc fuel) behind type_string bytes h =
      get-Ends (length bytes) (read2 bytes) _ (λ n rest e.
        get-Ends (length bytes) (read_chars n rest) _ (λ s rest' e'.
          omega (arith, read2-length bytes n rest e, read_chars-length n rest s rest' e')))
  decode_value-Ends (suc fuel) behind type_object bytes h =
      map-Ends (length bytes) (length bytes) _ amf_obj _
        (decode_object-Ends fuel behind no_fields bytes (omega arith)) (omega arith)
  decode_value-Ends (suc fuel) behind type_null bytes h = omega arith
  decode_value-Ends (suc fuel) behind type_undefined bytes h = omega arith
  decode_value-Ends (suc fuel) behind type_reference bytes h = tt
  decode_value-Ends (suc fuel) behind type_mixedarray bytes h =
      get-Ends (length bytes) (read4 bytes) _ (λ n rest e.
        let l = read4-length bytes n rest e in
        map-Ends (length rest) (length bytes) _ amf_obj _
          (decode_object-Ends fuel behind no_fields rest (omega arith)) (omega arith))
  decode_value-Ends (suc fuel) behind type_array bytes h =
      get-Ends (length bytes) (read4 bytes) _ (λ n rest e.
        let l = read4-length bytes n rest e in
        map-Ends (length rest) (length bytes) _ amf_array _
          (decode_array-Ends fuel behind n no_items rest (omega arith)) (omega arith))
  decode_value-Ends (suc fuel) behind type_date bytes h =
      get-Ends (length bytes) (read8 bytes) _
        (λ v rest e. omega (arith, read8-length bytes v rest e, length-drop 2 rest))
  decode_value-Ends (suc fuel) behind type_long_string bytes h =
      get-Ends (length bytes) (read4 bytes) _ (λ n rest e.
        get-Ends (length bytes) (read_chars n rest) _ (λ s rest' e'.
          omega (arith, read4-length bytes n rest e, read_chars-length n rest s rest' e')))
  decode_value-Ends (suc fuel) behind type_unsupported bytes h = omega arith
  decode_value-Ends (suc fuel) behind type_object_end bytes h = omega arith
  decode_value-Ends (suc fuel) behind type_unknown bytes h = omega arith

  decode_object-Ends :
      (fuel behind : ℕ) (fs : AmfFields) (bytes : List ℕ)
      → 2 * length bytes + 1 ≤ fuel
      → Ends (length bytes) (decode_object fuel behind fs bytes)
  decode_object-Ends zero behind fs bytes h = absurd (omega arith)
  decode_object-Ends (suc fuel) behind fs bytes h =
      elim (read_key behind bytes)
          as (λ k.
            KeyEnds (length bytes) k
            → Ends (length bytes) (elim k [
              | finished rest ↦ ret true fs rest
              | refused rest ↦ ret false fs rest
              | no_key ↦ overrun
              | key_read key rest ↦ elim (decode fuel behind rest) [
                | ret code value rest' ↦ elim code [
                  | true ↦ decode_object fuel behind (insert key value fs) rest'
                  | false ↦ ret false fs rest'
                ]
                | overrun ↦ overrun
                | exhausted ↦ exhausted
              ]
            ])) [
              | finished rest ↦ λ l. l
              | refused rest ↦ λ l. l
              | no_key ↦ λ l. tt
              | key_read key rest ↦ λ l.
                  (elim (decode fuel behind rest)
                      as (λ d.
                        Advances (length rest) d
                        → Ends (length bytes) (elim d [
                          | ret code value rest' ↦ elim code [
                            | true ↦ decode_object fuel behind (insert key value fs) rest'
                            | false ↦ ret false fs rest'
                          ]
                          | overrun ↦ overrun
                          | exhausted ↦ exhausted
                        ])) [
                          | ret true value rest' ↦ λ a.
                              Ends-Ends (length rest') (length bytes)
                                (decode_object fuel behind (insert key value fs) rest')
                                (decode_object-Ends fuel behind (insert key value fs) rest'
                                  (omega arith))
                                (omega arith)
                          | ret false value rest' ↦ λ a. omega arith
                          | overrun ↦ λ a. tt
                          | exhausted ↦ λ a. a
                        ])
                    (decode-Advances fuel behind rest (omega arith))
            ]
        (read_key-KeyEnds behind bytes)

  decode_array-Ends :
      (fuel behind left : ℕ) (xs : AmfItems) (bytes : List ℕ)
      → 2 * length bytes + 2 ≤ fuel
      → Ends (length bytes) (decode_array fuel behind left xs bytes)
  decode_array-Ends zero behind left xs bytes h = absurd (omega arith)
  decode_array-Ends (suc fuel) behind zero xs bytes h = omega arith
  decode_array-Ends (suc fuel) behind (suc left) xs bytes h =
      elim (decode fuel behind bytes)
          as (λ d.
            Advances (length bytes) d
            → Ends (length bytes) (elim d [
              | ret code value rest ↦ elim code [
                | true ↦ decode_array fuel behind left (push_back xs value) rest
                | false ↦ ret false xs rest
              ]
              | overrun ↦ overrun
              | exhausted ↦ exhausted
            ])) [
              | ret true value rest ↦ λ a.
                  Ends-Ends (length rest) (length bytes)
                    (decode_array fuel behind left (push_back xs value) rest)
                    (decode_array-Ends fuel behind left (push_back xs value) rest (omega arith))
                    (omega arith)
              | ret false value rest ↦ λ a. a
              | overrun ↦ λ a. tt
              | exhausted ↦ λ a. a
            ]
        (decode-Advances fuel behind bytes (omega arith))

-- Decode ends on any memory, within twice as many rounds as there are bytes. Its pointer does not go back,
-- and if it returns 0 it has gone forward.
pub decode-enough :
    (behind : ℕ) (bytes : List ℕ) → Advances (length bytes) (decode (enough bytes) behind bytes)
decode-enough behind bytes = decode-Advances (enough bytes) behind bytes (omega arith)

-- The loop that reads a command's values never ends, whatever number of rounds it is given, once a byte
-- greater than 13 stands where a value begins.
pub read_items_stuck :
    (fuel behind b : ℕ) (rest : List ℕ)
    → 13 < b
    → behind ≤ length rest
    → read_items fuel behind (b ∷ rest) ≡ exhausted
unfolding read_items decode amf_type
read_items_stuck zero behind b rest h l = refl
read_items_stuck (suc fuel) behind b rest h l =
    let more : leb (suc (length rest)) behind ≡ false = ground arith in
    let large : ltb 13 b ≡ true = ground arith in
    let rounds : enough (b ∷ rest) ≡ suc (2 * length rest + 2) = omega arith in
    rw (read_items, more, rounds, decode, amf_type, large, read_items_stuck fuel behind b rest h l)
      refl
