-- ===== src/Lib.antt =====
-- FlowQ: a QUIC transport library. The header-only library under include/flowq is modelled.
--
-- Prelude: names of the libraries passed on, Boolean tests, lists over native numbers, the result
--   type (include/flowq/error.hpp) and the laws of masks and shifts.
-- Varint: include/flowq/quic/varint.hpp, the variable-length integers.
-- Frame: include/flowq/quic/frame.hpp, the frames, `encode_frame` and `decode_frames`.
--   The frame codec reads and writes its integers through Varint alone.
-- Packet: include/flowq/quic/packet_header.hpp, the packet numbers and the packet headers; their
--   integers are those of Varint and Frame.
-- Parameters: include/flowq/quic/transport_parameters.hpp, the transport parameters of the TLS
--   handshake, encoded and decoded over the integers of Varint.
-- AckLoss: include/flowq/quic/ack_loss.hpp, the trackers of received and sent packet numbers. An
--   ACK frame is built by one and expanded by the other; a `std::set` is an ascending list.
-- Stream/Send: `stream_send_state` of include/flowq/quic/stream.hpp, the bytes of a sending stream,
--   its credit, its FIN and the ranges lost and acknowledged. It hands out STREAM frames of Frame.
-- Stream/Receive: `stream_receive_state` of the same file, which puts STREAM frames in any order
--   together. Calls has its operations; Layout to Received prove what the ranges hold; Events to
--   Limits are about sequences of calls.
-- Stream/ReceiveSet: `stream_receive_set` of the same file, the receiving streams of a connection
--   under the limits given to the peer; each call is that of Receive on one stream.
-- Stream/SendSet: `stream_send_set` of the same file, the sending streams of a connection by their
--   numbers, under the peer's stream limits; each operation is that of Send on one stream.
-- Congestion: `congestion_controller` of include/flowq/quic/congestion.hpp without its RTT
--   estimator.
-- KeyLifecycle: include/flowq/quic/key_lifecycle.hpp, the keys available and the spaces discarded.
-- ZeroRtt: `zero_rtt_replay_protection` of include/flowq/quic/zero_rtt.hpp, the window of 0-RTT
--   packet numbers.
--
-- A `std::byte` is a number below 256 and a buffer, span, string or array of bytes a list of them.
-- The result structs carry a value and an error, of which one is empty: they are a `Result`. A
-- cursor into a span is the suffix behind it. Unsigned arithmetic that can wrap is taken mod 2^64.
--
-- The loop of `decode_frames` takes a round for each byte of the input as fuel; every round reads a
-- frame type, so it takes a byte at least and the fuel suffices. The same holds of the loop of
-- `decode_transport_parameters`. The loop of `drain_contiguous` takes a round for each pending range.
--
-- Not modelled: round-trip times and timers, connections and their routing, the packet pipeline, key
-- updates, the 0-RTT manager, HTTP/3, encryption and TLS (OpenSSL), the Asio bindings, floating-point
-- pacing and congestion algorithms, and the tests and tools.
pub mod Prelude
pub mod AckLoss
pub mod Congestion
pub mod Frame
pub mod KeyLifecycle
pub mod Packet
pub mod Parameters
pub mod Stream
pub mod Varint
pub mod ZeroRtt
