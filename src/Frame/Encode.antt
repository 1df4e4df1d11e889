-- ===== src/Frame/Encode.antt =====
-- include/flowq/quic/frame.hpp: `encode_frame` and the encoders that it calls. A failing
-- `frame_encode_result` has an empty payload, so it is its error alone.
use flow_q.Prelude.{ℕ, Bool, Option, none, some, String, bit_or}
use flow_q.Prelude.{
  List, [], ◌∷◌, ◌++◌, length, take, replicate, ltb, ◌==◌, ◌||◌, not, if◌then◌else◌,
}
use flow_q.Prelude.{Result, ok, err, ◌>>=◌, or_fail, codec_error}
use flow_q.Varint.{encode_varint}
use flow_q.Frame.{
  Frame, padding, ping, connection_close, application_close, reset_stream, stop_sending, ack,
  crypto, new_token, stream, max_data, max_stream_data, data_blocked, stream_data_blocked,
  max_streams, streams_blocked, new_connection_id, retire_connection_id, handshake_done,
  path_challenge, path_response, ConnectionCloseFrame, ApplicationCloseFrame, ResetStreamFrame,
  StopSendingFrame, AckRange, AckEcnCounts, AckFrame, CryptoFrame, StreamFrame, StreamDirection,
  bidirectional, unidirectional, NewConnectionIdFrame,
}

-- `encode_varint` into an array of eight zero bytes, of which the written ones are appended.
unfoldable pub append_varint : List ℕ → ℕ → Option (List ℕ)
append_varint output value = elim (encode_varint value (replicate 8 0)) [
  | err e ↦ none
  | ok (bytes_written, encoded) ↦ some (output ++ take bytes_written encoded)
]

-- `append_varint(…) && append_varint(…) && …`, from left to right.
unfoldable pub append_varints : List ℕ → List ℕ → Option (List ℕ)
append_varints output [] = some output
append_varints output (v ∷ vs) = elim (append_varint output v) [
  | none ↦ none
  | some more ↦ append_varints more vs
]

unfoldable pub encode_connection_close : ConnectionCloseFrame → Result (List ℕ)
encode_connection_close f =
    or_fail (append_varints [] (0x1c ∷ f.error_code ∷ f.frame_type ∷ []))
      (codec_error "failed to encode CONNECTION_CLOSE frame")
    >>= λ output.
        or_fail (append_varint output (length f.reason))
          (codec_error "failed to encode CONNECTION_CLOSE reason length")
        >>= λ output'. ok (output' ++ f.reason)

unfoldable pub encode_application_close : ApplicationCloseFrame → Result (List ℕ)
encode_application_close f =
    or_fail (append_varints [] (0x1d ∷ f.error_code ∷ []))
      (codec_error "failed to encode APPLICATION_CLOSE frame")
    >>= λ output.
        or_fail (append_varint output (length f.reason))
          (codec_error "failed to encode APPLICATION_CLOSE reason length")
        >>= λ output'. ok (output' ++ f.reason)

unfoldable pub encode_reset_stream : ResetStreamFrame → Result (List ℕ)
encode_reset_stream f =
    or_fail (append_varints [] (0x04 ∷ f.stream_id ∷ f.application_error_code ∷ f.final_size ∷ []))
      (codec_error "failed to encode RESET_STREAM frame")

unfoldable pub encode_stop_sending : StopSendingFrame → Result (List ℕ)
encode_stop_sending f =
    or_fail (append_varints [] (0x05 ∷ f.stream_id ∷ f.application_error_code ∷ []))
      (codec_error "failed to encode STOP_SENDING frame")

unfoldable pub encode_ack_ranges : List ℕ → List AckRange → Result (List ℕ)
encode_ack_ranges output [] = ok output
encode_ack_ranges output (r ∷ rs) =
    or_fail (append_varints output (r.gap ∷ r.length ∷ []))
      (codec_error "failed to encode ACK range")
    >>= λ more. encode_ack_ranges more rs

unfoldable pub encode_ecn_counts : List ℕ → Option AckEcnCounts → Result (List ℕ)
encode_ecn_counts output none = ok output
encode_ecn_counts output (some counts) =
    or_fail (append_varints output (counts.ect0 ∷ counts.ect1 ∷ counts.ce ∷ []))
      (codec_error "failed to encode ACK ECN counts")

abbrev pub ack_type : Option AckEcnCounts → ℕ
ack_type none = 0x02
ack_type (some counts) = 0x03

unfoldable pub encode_ack : AckFrame → Result (List ℕ)
unfolding encode_ack_ranges encode_ecn_counts
encode_ack f =
    or_fail
      (append_varints [] (
        ack_type f.ecn_counts
        ∷ f.largest_acknowledged
        ∷ f.ack_delay
        ∷ length f.ranges
        ∷ f.first_ack_range
        ∷ []))
      (codec_error "failed to encode ACK frame")
    >>= λ output.
        encode_ack_ranges output f.ranges >>= λ output'. encode_ecn_counts output' f.ecn_counts

unfoldable pub encode_crypto : CryptoFrame → Result (List ℕ)
encode_crypto f =
    or_fail (append_varints [] (0x06 ∷ f.offset ∷ length f.bytes ∷ []))
      (codec_error "failed to encode CRYPTO frame")
    >>= λ output. ok (output ++ f.bytes)

unfoldable pub encode_new_token : List ℕ → Result (List ℕ)
encode_new_token token =
    if length token == 0
    then err (codec_error "NEW_TOKEN token must not be empty")
    else or_fail (append_varints [] (0x07 ∷ length token ∷ []))
        (codec_error "failed to encode NEW_TOKEN frame")
      >>= λ output. ok (output ++ token)

abbrev pub stream_type : Bool → Bool → Bool → ℕ
stream_type offset_present length_present fin =
    bit_or
      (bit_or (bit_or 0x08 (if offset_present then 0x04 else 0x00))
        (if length_present then 0x02 else 0x00))
      (if fin then 0x01 else 0x00)

-- `present && !append_varint(output, value)` makes the encoder fail.
abbrev pub append_if : Bool → List ℕ → ℕ → Option (List ℕ)
append_if present output value = if present then append_varint output value else some output

unfoldable pub encode_stream : StreamFrame → Result (List ℕ)
encode_stream f =
    or_fail
      (append_varints [] (stream_type f.offset_present f.length_present f.fin ∷ f.stream_id ∷ []))
      (codec_error "failed to encode STREAM frame")
    >>= λ output.
        or_fail (append_if f.offset_present output f.offset)
          (codec_error "failed to encode STREAM offset")
        >>= λ output'.
            or_fail (append_if f.length_present output' (length f.bytes))
              (codec_error "failed to encode STREAM length")
            >>= λ output''. ok (output'' ++ f.bytes)

unfoldable pub encode_single_limit_frame : ℕ → ℕ → String → Result (List ℕ)
encode_single_limit_frame type maximum_data message =
    or_fail (append_varints [] (type ∷ maximum_data ∷ [])) (codec_error message)

unfoldable pub encode_stream_limit_frame : ℕ → ℕ → ℕ → String → Result (List ℕ)
encode_stream_limit_frame type stream_id maximum_stream_data message =
    or_fail (append_varints [] (type ∷ stream_id ∷ maximum_stream_data ∷ [])) (codec_error message)

unfoldable pub encode_stream_count_frame : ℕ → ℕ → StreamDirection → ℕ → String → Result (List ℕ)
encode_stream_count_frame bidirectional_type unidirectional_type bidirectional maximum_streams
      message =
    or_fail (append_varints [] (bidirectional_type ∷ maximum_streams ∷ [])) (codec_error message)
encode_stream_count_frame bidirectional_type unidirectional_type unidirectional maximum_streams
      message =
    or_fail (append_varints [] (unidirectional_type ∷ maximum_streams ∷ [])) (codec_error message)

unfoldable pub encode_new_connection_id : NewConnectionIdFrame → Result (List ℕ)
encode_new_connection_id f =
    if length f.conn_id.bytes == 0 || ltb 20 (length f.conn_id.bytes)
    then err (codec_error "NEW_CONNECTION_ID connection ID length must be 1 to 20 bytes")
    else if not (length f.stateless_reset_token == 16)
    then err (codec_error "NEW_CONNECTION_ID stateless reset token must be 16 bytes")
    else if ltb f.sequence_number f.retire_prior_to
    then err (codec_error "NEW_CONNECTION_ID retire_prior_to must not exceed sequence_number")
    else or_fail
        (append_varints []
          (0x18 ∷ f.sequence_number ∷ f.retire_prior_to ∷ length f.conn_id.bytes ∷ []))
        (codec_error "NEW_CONNECTION_ID failed to encode varints")
      >>= λ output. ok ((output ++ f.conn_id.bytes) ++ f.stateless_reset_token)

unfoldable pub encode_path_validation_frame : ℕ → List ℕ → String → Result (List ℕ)
encode_path_validation_frame type bytes message =
    or_fail (append_varint [] type) (codec_error message) >>= λ output. ok (output ++ bytes)

unfoldable pub encode_frame : Frame → Result (List ℕ)
encode_frame (padding count) = ok (replicate count 0x00)
encode_frame ping = ok (0x01 ∷ [])
encode_frame (connection_close f) = encode_connection_close f
encode_frame (application_close f) = encode_application_close f
encode_frame (reset_stream f) = encode_reset_stream f
encode_frame (stop_sending f) = encode_stop_sending f
encode_frame (ack f) = encode_ack f
encode_frame (crypto f) = encode_crypto f
encode_frame (new_token token) = encode_new_token token
encode_frame (stream f) = encode_stream f
encode_frame (max_data n) = encode_single_limit_frame 0x10 n "failed to encode MAX_DATA frame"
encode_frame (max_stream_data f) =
    encode_stream_limit_frame 0x11 f.stream_id f.maximum_stream_data
      "failed to encode MAX_STREAM_DATA frame"
encode_frame (data_blocked n) =
    encode_single_limit_frame 0x14 n "failed to encode DATA_BLOCKED frame"
encode_frame (stream_data_blocked f) =
    encode_stream_limit_frame 0x15 f.stream_id f.maximum_stream_data
      "failed to encode STREAM_DATA_BLOCKED frame"
encode_frame (max_streams f) =
    encode_stream_count_frame 0x12 0x13 f.direction f.maximum_streams
      "failed to encode MAX_STREAMS frame"
encode_frame (streams_blocked f) =
    encode_stream_count_frame 0x16 0x17 f.direction f.maximum_streams
      "failed to encode STREAMS_BLOCKED frame"
encode_frame (new_connection_id f) = encode_new_connection_id f
encode_frame (retire_connection_id n) =
    encode_single_limit_frame 0x19 n "failed to encode RETIRE_CONNECTION_ID frame"
encode_frame handshake_done = ok (0x1e ∷ [])
encode_frame (path_challenge bytes) =
    encode_path_validation_frame 0x1a bytes "failed to encode PATH_CHALLENGE frame"
encode_frame (path_response bytes) =
    encode_path_validation_frame 0x1b bytes "failed to encode PATH_RESPONSE frame"
