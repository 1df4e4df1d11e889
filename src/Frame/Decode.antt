-- ===== src/Frame/Decode.antt =====
-- include/flowq/quic/frame.hpp: `decode_frames`. The cursor `offset` is the suffix of the input
-- that it has not passed, so `input.size() - offset` is the length of that suffix. The body of the
-- loop is one function for each frame type and a dispatch on the type.
use flow_q.Prelude.{ℕ, zero, suc, ◌+◌, ◌/◌, Bool, true, false, Option, none, some, String}
use flow_q.Prelude.{List, [], ◌∷◌, ◌++◌, length, take, drop, ltb, leb, ◌==◌, ◌&&◌, ◌||◌, not}
use flow_q.Prelude.{if◌then◌else◌, bit_and, Result, ok, err, ◌>>=◌, or_fail, codec_error}
use flow_q.Varint.{decode_varint}
use flow_q.Frame.{
  Frame, padding, ping, connection_close, application_close, reset_stream, stop_sending, ack,
  crypto, new_token, stream, max_data, max_stream_data, data_blocked, stream_data_blocked,
  max_streams, streams_blocked, new_connection_id, retire_connection_id, handshake_done,
  path_challenge, path_response, AckRange, AckEcnCounts, StreamDirection, bidirectional,
  unidirectional,
}

-- The integer, and the input behind it.
unfoldable pub read_varint_at : List ℕ → Option (ℕ × List ℕ)
read_varint_at input = elim (decode_varint input) [
  | err e ↦ none
  | ok (value, bytes_read) ↦ some (value, drop bytes_read input)
]

abbrev pub read : String → List ℕ → Result (ℕ × List ℕ)
read message input = or_fail (read_varint_at input) (codec_error message)

-- `input.subspan(offset, length)`, and `offset += length`, behind the test of the length.
unfoldable pub read_bytes : String → ℕ → List ℕ → Result (List ℕ × List ℕ)
read_bytes message n input =
    if ltb (length input) n then err (codec_error message) else ok (take n input, drop n input)

-- The result of one round: a frame, and the input behind it.
abbrev pub Step : Type 0
Step = Result (Frame × List ℕ)

unfoldable pub decode_padding : ℕ → List ℕ → Frame × List ℕ
decode_padding count [] = (padding count, [])
decode_padding count (zero ∷ input) = decode_padding (suc count) input
decode_padding count (suc b ∷ input) = (padding count, suc b ∷ input)

unfoldable pub decode_ack_ranges : ℕ → List ℕ → Result (List AckRange × List ℕ)
decode_ack_ranges zero input = ok ([], input)
decode_ack_ranges (suc n) input = do
  (gap, input₁) ← read "truncated ACK range" input
  (size, input₂) ← read "truncated ACK range" input₁
  (ranges, input₃) ← decode_ack_ranges n input₂
  ok (record { gap = gap; length = size } ∷ ranges, input₃)

unfoldable pub decode_ecn_counts : Bool → List ℕ → Result (Option AckEcnCounts × List ℕ)
decode_ecn_counts false input = ok (none, input)
decode_ecn_counts true input = do
  (ect0, input₁) ← read "truncated ACK ECN counts" input
  (ect1, input₂) ← read "truncated ACK ECN counts" input₁
  (ce, input₃) ← read "truncated ACK ECN counts" input₂
  ok (some (record { ect0 = ect0; ect1 = ect1; ce = ce }), input₃)

unfoldable pub decode_ack : ℕ → List ℕ → Step
decode_ack type input = do
  (largest_acknowledged, input₁) ← read "truncated ACK frame" input
  (ack_delay, input₂) ← read "truncated ACK frame" input₁
  (range_count, input₃) ← read "truncated ACK frame" input₂
  (first_ack_range, input₄) ← read "truncated ACK frame" input₃
  (ranges, input₅) ←
      if ltb (length input₄ / 2) range_count
      then err (codec_error "truncated ACK range")
      else decode_ack_ranges range_count input₄
  (ecn_counts, input₆) ← decode_ecn_counts (type == 0x03) input₅
  ok (
    ack (record {
      largest_acknowledged = largest_acknowledged;
      ack_delay = ack_delay;
      first_ack_range = first_ack_range;
      ranges = ranges;
      ecn_counts = ecn_counts;
    }),
    input₆,
  )

unfoldable pub decode_reset_stream : List ℕ → Step
decode_reset_stream input = do
  (stream_id, input₁) ← read "truncated RESET_STREAM frame" input
  (code, input₂) ← read "truncated RESET_STREAM frame" input₁
  (final_size, input₃) ← read "truncated RESET_STREAM frame" input₂
  ok (
    reset_stream
        (record { stream_id = stream_id; application_error_code = code; final_size = final_size }),
    input₃,
  )

unfoldable pub decode_stop_sending : List ℕ → Step
decode_stop_sending input = do
  (stream_id, input₁) ← read "truncated STOP_SENDING frame" input
  (code, input₂) ← read "truncated STOP_SENDING frame" input₁
  ok (stop_sending (record { stream_id = stream_id; application_error_code = code }), input₂)

unfoldable pub decode_crypto : List ℕ → Step
decode_crypto input = do
  (offset, input₁) ← read "truncated CRYPTO frame" input
  (size, input₂) ← read "truncated CRYPTO frame" input₁
  (bytes, input₃) ← read_bytes "truncated CRYPTO data" size input₂
  ok (crypto (record { offset = offset; bytes = bytes }), input₃)

unfoldable pub decode_new_token : List ℕ → Step
decode_new_token input = do
  (size, input₁) ← read "truncated NEW_TOKEN frame" input
  (token, input₂) ←
      if size == 0
      then err (codec_error "NEW_TOKEN token must not be empty")
      else read_bytes "truncated NEW_TOKEN token" size input₁
  ok (new_token token, input₂)

-- A value that is read if it is present, and is the default otherwise.
abbrev pub read_if : Bool → String → ℕ → List ℕ → Result (ℕ × List ℕ)
read_if present message default input = if present then read message input else ok (default, input)

unfoldable pub decode_stream : ℕ → List ℕ → Step
decode_stream type input = do
  (stream_id, input₁) ← read "truncated STREAM id" input
  let offset_present = not (bit_and type 0x04 == 0)
  let length_present = not (bit_and type 0x02 == 0)
  let fin = not (bit_and type 0x01 == 0)
  (offset, input₂) ← read_if offset_present "truncated STREAM offset" 0 input₁
  (size, input₃) ← read_if length_present "truncated STREAM length" (length input₂) input₂
  (bytes, input₄) ← read_bytes "truncated STREAM data" size input₃
  ok (
    stream (record {
      stream_id = stream_id;
      offset = offset;
      offset_present = offset_present;
      length_present = length_present;
      fin = fin;
      bytes = bytes;
    }),
    input₄,
  )

-- The frames with one integer, and those with a stream and a limit.
unfoldable pub decode_single : (ℕ → Frame) → String → List ℕ → Step
decode_single frame message input = do
  (value, input₁) ← read message input
  ok (frame value, input₁)

unfoldable pub decode_pair : (ℕ → ℕ → Frame) → String → List ℕ → Step
decode_pair frame message input = do
  (first, input₁) ← read message input
  (second, input₂) ← read message input₁
  ok (frame first second, input₂)

abbrev pub stream_limit : ℕ → ℕ → Frame
stream_limit stream_id limit =
    max_stream_data (record { stream_id = stream_id; maximum_stream_data = limit })

abbrev pub stream_blocked : ℕ → ℕ → Frame
stream_blocked stream_id limit =
    stream_data_blocked (record { stream_id = stream_id; maximum_stream_data = limit })

abbrev pub direction_of : Bool → StreamDirection
direction_of true = bidirectional
direction_of false = unidirectional

abbrev pub stream_count : Bool → ℕ → Frame
stream_count bidi n = max_streams (record { direction = direction_of bidi; maximum_streams = n })

abbrev pub streams_limit : Bool → ℕ → Frame
streams_limit bidi n =
    streams_blocked (record { direction = direction_of bidi; maximum_streams = n })

-- The guards of NEW_CONNECTION_ID, and the identifier behind them.
unfoldable pub read_identifier : ℕ → ℕ → ℕ → List ℕ → Result (List ℕ × List ℕ)
read_identifier sequence_number retire_prior_to size input =
    if ltb sequence_number retire_prior_to
    then err (codec_error "NEW_CONNECTION_ID retire_prior_to must not exceed sequence_number")
    else if size == 0 || ltb 20 size
    then err (codec_error "NEW_CONNECTION_ID connection ID length must be 1 to 20 bytes")
    else if ltb (length input) (size + 16)
    then err (codec_error "truncated NEW_CONNECTION_ID frame")
    else ok (take size input, drop size input)

unfoldable pub decode_new_connection_id : List ℕ → Step
decode_new_connection_id input = do
  (sequence_number, input₁) ← read "truncated NEW_CONNECTION_ID frame" input
  (retire_prior_to, input₂) ← read "truncated NEW_CONNECTION_ID frame" input₁
  (size, input₃) ← read "truncated NEW_CONNECTION_ID frame" input₂
  (conn_id, input₄) ← read_identifier sequence_number retire_prior_to size input₃
  ok (
    new_connection_id (record {
      sequence_number = sequence_number;
      retire_prior_to = retire_prior_to;
      conn_id = record { bytes = conn_id };
      stateless_reset_token = take 16 input₄;
    }),
    drop 16 input₄,
  )

unfoldable pub decode_path_validation : (List ℕ → Frame) → String → List ℕ → Step
decode_path_validation frame message input = do
  (bytes, input₁) ← read_bytes message 8 input
  ok (frame bytes, input₁)

unfoldable pub decode_connection_close : List ℕ → Step
decode_connection_close input = do
  (code, input₁) ← read "truncated CONNECTION_CLOSE frame" input
  (frame_type, input₂) ← read "truncated CONNECTION_CLOSE frame" input₁
  (size, input₃) ← read "truncated CONNECTION_CLOSE frame" input₂
  (reason, input₄) ← read_bytes "truncated CONNECTION_CLOSE reason phrase" size input₃
  ok (
    connection_close (record { error_code = code; frame_type = frame_type; reason = reason }),
    input₄,
  )

unfoldable pub decode_application_close : List ℕ → Step
decode_application_close input = do
  (code, input₁) ← read "truncated APPLICATION_CLOSE frame" input
  (size, input₂) ← read "truncated APPLICATION_CLOSE frame" input₁
  (reason, input₃) ← read_bytes "truncated APPLICATION_CLOSE reason phrase" size input₂
  ok (application_close (record { error_code = code; reason = reason }), input₃)

unfoldable pub decode_body : ℕ → List ℕ → Step
decode_body type input =
    if type == 0x00
    then ok (decode_padding 1 input)
    else if type == 0x01
    then ok (ping, input)
    else if type == 0x02 || type == 0x03
    then decode_ack type input
    else if type == 0x04
    then decode_reset_stream input
    else if type == 0x05
    then decode_stop_sending input
    else if type == 0x06
    then decode_crypto input
    else if type == 0x07
    then decode_new_token input
    else if leb 0x08 type && leb type 0x0f
    then decode_stream type input
    else if type == 0x10
    then decode_single max_data "truncated MAX_DATA frame" input
    else if type == 0x11
    then decode_pair stream_limit "truncated MAX_STREAM_DATA frame" input
    else if type == 0x14
    then decode_single data_blocked "truncated DATA_BLOCKED frame" input
    else if type == 0x15
    then decode_pair stream_blocked "truncated STREAM_DATA_BLOCKED frame" input
    else if type == 0x12 || type == 0x13
    then decode_single (stream_count (type == 0x12)) "truncated MAX_STREAMS frame" input
    else if type == 0x16 || type == 0x17
    then decode_single (streams_limit (type == 0x16)) "truncated STREAMS_BLOCKED frame" input
    else if type == 0x18
    then decode_new_connection_id input
    else if type == 0x19
    then decode_single retire_connection_id "truncated RETIRE_CONNECTION_ID frame" input
    else if type == 0x1a
    then decode_path_validation path_challenge "truncated PATH_CHALLENGE frame" input
    else if type == 0x1b
    then decode_path_validation path_response "truncated PATH_RESPONSE frame" input
    else if type == 0x1c
    then decode_connection_close input
    else if type == 0x1d
    then decode_application_close input
    else if type == 0x1e
    then ok (handshake_done, input)
    else err (codec_error "unsupported QUIC frame type")

unfoldable pub decode_frame : List ℕ → Step
decode_frame input = do (type, rest) ← read "truncated QUIC frame type" input; decode_body type rest

-- `while (offset < input.size())`. `none` is no result of the code: the fuel ran out.
unfoldable pub decode_loop : ℕ → List Frame → List ℕ → Option (Result (List Frame))
decode_loop fuel frames [] = some (ok frames)
decode_loop zero frames (b ∷ input) = none
decode_loop (suc fuel) frames (b ∷ input) = elim (decode_frame (b ∷ input)) [
  | err e ↦ some (err e)
  | ok (frame, rest) ↦ decode_loop fuel (frames ++ (frame ∷ [])) rest
]

-- Each round takes a byte at least.
unfoldable pub decode_frames : List ℕ → Option (Result (List Frame))
decode_frames [] = some (err (codec_error "QUIC packet payload contains no frames"))
decode_frames (b ∷ input) = decode_loop (length (b ∷ input)) [] (b ∷ input)
