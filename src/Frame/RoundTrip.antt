-- ===== src/Frame/RoundTrip.antt =====
-- `decode_frames` reads what `encode_frame` writes: one frame, and a whole payload.
pub mod Header
mod Fields
mod Acks
mod Streams
use flow_q.Prelude.{ℕ, zero, suc, ◌+◌, ◌≤◌, ◌<◌, ◌≡◌, refl, ◌∙◌, sym, ap, arith, ◌⊎◌, inl, inr}
use flow_q.Prelude.{Option, some, List, [], ◌∷◌, ◌++◌, length, Result, ok, err, ok-injective}
use flow_q.Prelude.{bind-eq-ok, length-append, true, false, replicate, subst}
use flow_q.Frame.{
  Frame, padding, ping, connection_close, application_close, reset_stream, stop_sending, ack,
  crypto, new_token, stream, max_data, max_stream_data, data_blocked, stream_data_blocked,
  max_streams, streams_blocked, new_connection_id, retire_connection_id, handshake_done,
  path_challenge, path_response, bidirectional, unidirectional, StreamDirection,
}
use flow_q.Frame.Encode.{encode_frame}
use flow_q.Frame.Decode.{
  decode_frame, decode_body, decode_padding, decode_loop, decode_frames, stream_limit,
  stream_blocked, stream_count, streams_limit, direction_of,
}
use flow_q.Frame.WellFormed.{
  IsWellFormed, MayFollow, MayPrecede, NotZeroFirst, IsPadding, encode_payload, IsWellFormedPayload,
}
use flow_q.Frame.Cursor.{read_varint_at-nil}
use flow_q.Varint.Bytes.{varint_bytes}
use Header.{decode_frame-type}
use Fields.{
  reset_stream_round, stop_sending_round, single_round, pair_round, crypto_round, new_token_round,
  connection_close_round, application_close_round, path_validation_round, new_connection_id_round,
  count_round, is_bidirectional,
}
use Acks.{ack_round, padding_round}
use Streams.{stream_round_fields}
use mathlib.Core.List.{append_assoc, append-nil}

direction_of-is_bidirectional : (d : StreamDirection) → direction_of (is_bidirectional d) ≡ d
direction_of-is_bidirectional bidirectional = refl
direction_of-is_bidirectional unidirectional = refl

-- What `encode_frame` writes for a well-formed frame, one of which the padding is not empty, a STREAM
-- frame without an offset field stands at 0 and path data has eight bytes, `decode_frame` reads back
-- from the front of the input, and leaves the rest. The rest does not begin with a zero byte behind
-- padding, and is empty behind a STREAM frame without a length field.
pub decode_frame-encode_frame :
    (f : Frame) (rest bytes : List ℕ)
    → IsWellFormed f
    → MayFollow f rest
    → encode_frame f ≡ ok bytes
    → decode_frame (bytes ++ rest) ≡ ok (f, rest)
unfolding encode_frame decode_body
decode_frame-encode_frame (padding count) rest bytes h m e =
    rw (← ok-injective e) (padding_round count rest h m)
decode_frame-encode_frame ping rest bytes h m e =
    rw (← ok-injective e) (unfold varint_bytes in decode_frame-type 0x01 (omega arith) rest)
decode_frame-encode_frame (connection_close f) rest bytes h m e = connection_close_round f rest e
decode_frame-encode_frame (application_close f) rest bytes h m e = application_close_round f rest e
decode_frame-encode_frame (reset_stream f) rest bytes h m e = reset_stream_round f rest e
decode_frame-encode_frame (stop_sending f) rest bytes h m e = stop_sending_round f rest e
decode_frame-encode_frame (ack f) rest bytes h m e = ack_round f rest e
decode_frame-encode_frame (crypto f) rest bytes h m e = crypto_round f rest e
decode_frame-encode_frame (new_token token) rest bytes h m e = new_token_round token rest e
decode_frame-encode_frame (stream f) rest bytes h m e =
    stream_round_fields f.stream_id f.offset f.offset_present f.length_present f.fin f.bytes rest h
      m e
decode_frame-encode_frame (max_data n) rest bytes h m e =
    single_round 0x10 n max_data _ _ rest e (λ input. refl)
decode_frame-encode_frame (max_stream_data f) rest bytes h m e =
    pair_round 0x11 f.stream_id f.maximum_stream_data stream_limit _ _ rest e (λ input. refl)
decode_frame-encode_frame (data_blocked n) rest bytes h m e =
    single_round 0x14 n data_blocked _ _ rest e (λ input. refl)
decode_frame-encode_frame (stream_data_blocked f) rest bytes h m e =
    pair_round 0x15 f.stream_id f.maximum_stream_data stream_blocked _ _ rest e (λ input. refl)
decode_frame-encode_frame (max_streams f) rest bytes h m e =
    rw (direction_of-is_bidirectional f.direction) at (
      count_round 0x12 0x13 f.direction f.maximum_streams stream_count _
        "truncated MAX_STREAMS frame" rest e (λ input. refl) (λ input. refl))
decode_frame-encode_frame (streams_blocked f) rest bytes h m e =
    rw (direction_of-is_bidirectional f.direction) at (
      count_round 0x16 0x17 f.direction f.maximum_streams streams_limit _
        "truncated STREAMS_BLOCKED frame" rest e (λ input. refl) (λ input. refl))
decode_frame-encode_frame (new_connection_id f) rest bytes h m e = new_connection_id_round f rest e
decode_frame-encode_frame (retire_connection_id n) rest bytes h m e =
    single_round 0x19 n retire_connection_id _ _ rest e (λ input. refl)
decode_frame-encode_frame handshake_done rest bytes h m e =
    rw (← ok-injective e) (unfold varint_bytes in decode_frame-type 0x1e (omega arith) rest)
decode_frame-encode_frame (path_challenge xs) rest bytes h m e =
    path_validation_round 0x1a path_challenge _ _ xs rest h e (λ input. refl)
decode_frame-encode_frame (path_response xs) rest bytes h m e =
    path_validation_round 0x1b path_response _ _ xs rest h e (λ input. refl)
