-- ===== src/Lib.antt =====
-- cpp_streamer moves live audio and video between RTMP, WebRTC, FLV and MPEG-TS. This library models
-- its byte and packet layer: the buffers everything is read into, the RTMP chunk protocol in both
-- directions with the AMF0 values of its commands, FLV tags, MPEG transport streams, audio headers,
-- NAL units, WebSocket frames, RTP packets, and the parts of WebRTC that order packets, ask for lost ones
-- and put units of H.264 together.
--
-- Parts and files. Paths of the program are from the repository's root.
-- - Utils/ByteStream: src/utils/byte_stream.hpp. A pointer is the list of bytes from it on; a write is
--   the bytes stored.
-- - Utils/DataBuffer: src/utils/data_buffer.hpp. A record of the class's fields with the memory as a
--   function from offsets to bytes (Memory); `none` is undefined behaviour. Append and Queue relate it to
--   the list of bytes held, the form in which the other parts use a buffer. Faults has the inputs on
--   which the class fails.
-- - Rtmp/Chunk: src/net/rtmp/chunk_stream.hpp and the reading half of chunk_stream.cpp. One function
--   per member function; each returns the code, the stream and what is left of the receive buffer.
-- - Rtmp/Writer: the writing half of chunk_stream.cpp.
-- - Rtmp/Session: ReadFmtCsid and ReadChunkStream of src/net/rtmp/rtmp_session_base.cpp, which keep the
--   map of chunk streams, and the reading loop of rtmp_client_session.cpp.
-- - Rtmp/RoundTrip and Rtmp/BasicHeader: the writer against the reader.
-- - Rtp/Seq: the circular order in src/net/rtprtcp/rtprtcp_pub.hpp. Rtp/Nack: src/net/webrtc/nack_generator.cpp,
--   which uses it. Rtp/FbNack: src/net/rtprtcp/rtcpfb_nack.hpp, the packet for the numbers that the
--   generator reports. Rtp/Jitter: src/net/webrtc/jitterbuffer.cpp.
-- - Rtp/Packet: src/net/rtprtcp/rtp_packet.cpp, on results with exceptions and undefined behaviour
--   (Base/Outcome). Parse stands in Packet, what is read and written in place in Extensions, the
--   retransmission stream in Rtx; Elements, Finding, Safety and Values have what Parse and GetExtension
--   ensure.
-- - Rtp/PackH264: src/net/webrtc/pack_handle_h264.cpp, with src/net/rtprtcp/rtp_h264_pack.cpp in Sender. Steps
--   has what the receiver does with one fragment, RoundTrip a unit in fragments, Aggregates small units in
--   one packet.
-- - Flv: src/format/flv/flv_mux.cpp, and the tag's header in flv_demux.cpp.
-- - AudioHeader: src/format/audio_header.cpp; Laws has the ADTS header against a reader of it, and the two
--   readers of a codec configuration against each other.
-- - Mpegts: src/format/mpegts. Pes and Psi have WritePes and the two tables of mpegts_mux.cpp; State,
--   MediaInfo, PesReader, PsiReader and Demux the whole of Decode in mpegts_demux.cpp, with OnCallback, on
--   the results of Base/Outcome. Units, Rounds, First and Rest have what WritePes leaves, Times the
--   timestamps, RoundTrip the muxer against the demuxer, Shapes and Tables the same for the tables,
--   Callback and KeyFrames what OnCallback gives, Aac the muxer's HandleAudioAac, Pipeline a stream of
--   packets through both, and Checksums the table of the CRC and the checksums of the tables against a
--   division bit by bit. GetOpusFrameVector is the argument opus_frames, and timestamps are not negative.
-- - Nalu: the units of H.264 and H.265 in src/format/h264_h265_header.cpp; AnnexB has the units between
--   start codes, Laws those behind their lengths.
-- - Amf: src/format/amf/amf0.hpp; Codec has the encoder, the decoder and the loop of
--   src/net/rtmp/rtmp_control_handler.cpp that reads a command; Reads and Fuel have that the decoder ends,
--   Members and RoundTrip the encoder against the decoder.
-- - Utils/Base64: src/utils/base64.cpp, a group of three bytes or four characters a round.
-- - WebSocket: src/net/http/websocket/websocket_frame.cpp, and SendWsFrame of websocket_session.cpp and
--   websocket_client.cpp, which have the same body. Header and Frames have the writer against the
--   reader, Xor the mask, Stream, Parts and Lengths a frame that comes in
--   parts, Overrun the lengths that Parse takes for negative.
-- - Base: shared names, Boolean tests on native numbers, lists measured by them, and equality of functions
--   below a bound.
-- Modules named Tests apply theorems to concrete inputs.
--
-- Bounds and fuel. Machine integers keep their wrap-around as `% 2 ^ w`. The loop that reads an RTMP
-- message runs on fuel: each call of ReadChunkStream takes at least one byte of the payload, so as much
-- fuel as the message has bytes is enough. All other loops are recursions on lists or on a count that
-- the code computes.
-- The loops over the header extension of an RTP packet and the AMF0 decoder run on fuel too: a round takes
-- a byte at least, and the theorems on Parse and Decode show that as many rounds as the memory allows are
-- enough.
-- The loop of WritePes runs on as much fuel as there are bytes left and two rounds more: a round takes a
-- byte at least once the first unit is written. The loops over the tables take the bytes of the unit as fuel.
-- SplitNalu runs on the length of the unit and ParseStapAOffsets on that of the payload, of which a round
-- takes a byte at least.
-- The clock is an argument of the operations that read it. Maps are lists in the order of their keys, or
-- association lists where the order is not used.
--
-- Not modelled: sockets, TLS, DTLS and SRTP (calls of libuv, OpenSSL and libsrtp), logging, SDP, HTTP,
-- JSON and the signalling over them, MP4, InputPacket and the handlers for H.264 and H.265
-- of the MPEG-TS muxer, most of the FLV demuxer, STUN, the RTMP handshake and commands, RTCP reports, and memory management beyond the data buffer.
pub mod Amf
pub mod AudioHeader
pub mod Base
pub mod Flv
pub mod Mpegts
pub mod Nalu
pub mod Rtmp
pub mod Rtp
pub mod Utils
pub mod WebSocket
