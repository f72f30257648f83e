-- ===== src/Amf/Codec/RoundTrip.antt =====
-- src/format/amf/amf0.hpp: the decoder on what the encoder wrote.
use cpp_streamer.Base.{ℕ, suc}
use cpp_streamer.Amf.{AmfFields, no_fields, field}
use cpp_streamer.Amf.Codec.Members.{push_field}

abbrev append_fields : AmfFields → AmfFields → AmfFields
append_fields before no_fields = before
append_fields before (field k v fs) = append_fields (push_field before k v) fs

abbrev count : AmfFields → ℕ
count no_fields = 0
count (field k v fs) = suc (count fs)

abbrev join_fields : AmfFields → AmfFields → AmfFields
join_fields no_fields gs = gs
join_fields (field k v fs) gs = field k v (join_fields fs gs)
