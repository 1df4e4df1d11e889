-- ===== src/Parameters/Encode.antt =====
-- include/flowq/quic/transport_parameters.hpp: `encode_transport_parameters`.
use flow_q.Prelude.{
  ℕ, Bool, true, false, Option, none, some, String, List, [], ◌∷◌, ◌++◌, length, replicate,
  if◌then◌else◌,
}
use flow_q.Prelude.{Result, ok, err, ◌>>=◌, codec_error}
use flow_q.Varint.{encoded_size, encode_varint}
use flow_q.Parameters.{
  UnknownTransportParameter, TransportParameters, known_transport_parameter_id,
  remember_transport_parameter, validate_transport_parameter_for_encode,
  validate_connection_id_transport_parameter, unless_error,
}

-- The new end of the output is resized to the size of the integer and written through a span.
unfoldable pub append_transport_varint : List ℕ → ℕ → Result (List ℕ)
append_transport_varint output value = encoded_size value >>= λ size.
    encode_varint value (replicate size 0) >>= λ (bytes_written, encoded). ok (output ++ encoded)

unfoldable pub encode_transport_varint_value : ℕ → Result (List ℕ)
encode_transport_varint_value value = append_transport_varint [] value

unfoldable pub append_transport_parameter : List ℕ → ℕ → List ℕ → Result (List ℕ)
append_transport_parameter output id value =
    append_transport_varint output id
    >>= (λ output₁. append_transport_varint output₁ (length value))
    >>= λ output₂. ok (output₂ ++ value)

abbrev pub append_numeric_transport_parameter : List ℕ → ℕ → Option ℕ → Result (List ℕ)
append_numeric_transport_parameter output id none = ok output
append_numeric_transport_parameter output id (some value) =
    encode_transport_varint_value value >>= append_transport_parameter output id

-- `output` and `emitted`.
abbrev pub Written : Type 0
Written = List ℕ × List ℕ

unfoldable pub append_connection_id_transport_parameter :
    ℕ → String → Option (List ℕ) → Written → Result Written
append_connection_id_transport_parameter id message none (output, emitted) = ok (output, emitted)
append_connection_id_transport_parameter id message (some value) (output, emitted) =
    remember_transport_parameter emitted id >>= λ emitted'.
    unless_error (validate_connection_id_transport_parameter value message)
      (append_transport_parameter output id value >>= λ output'. ok (output', emitted'))

unfoldable pub append_checked_numeric_transport_parameter : ℕ → Option ℕ → Written → Result Written
append_checked_numeric_transport_parameter id none (output, emitted) = ok (output, emitted)
append_checked_numeric_transport_parameter id (some value) (output, emitted) =
    remember_transport_parameter emitted id >>= λ emitted'.
    unless_error (validate_transport_parameter_for_encode id value) (
      append_numeric_transport_parameter output id (some value) >>= λ output'.
      ok (output', emitted'))

-- The parameter without a value.
unfoldable pub append_disable_active_migration : Bool → Written → Result Written
append_disable_active_migration false (output, emitted) = ok (output, emitted)
append_disable_active_migration true (output, emitted) =
    remember_transport_parameter emitted 0x0c >>= λ emitted'.
    append_transport_parameter output 0x0c [] >>= λ output'. ok (output', emitted')

unfoldable pub append_unknown : UnknownTransportParameter → Written → Result Written
append_unknown unknown (output, emitted) =
    if known_transport_parameter_id unknown.id
    then err (codec_error "unknown transport parameter entry uses a known identifier")
    else remember_transport_parameter emitted unknown.id >>= λ emitted'.
        append_transport_parameter output unknown.id unknown.value >>= λ output'.
        ok (output', emitted')

unfoldable pub append_unknowns : List UnknownTransportParameter → Written → Result Written
append_unknowns [] w = ok w
append_unknowns (unknown ∷ others) w = append_unknown unknown w >>= append_unknowns others

unfoldable pub encode_transport_parameters : TransportParameters → Result (List ℕ)
encode_transport_parameters p =
    append_connection_id_transport_parameter 0x00
      "original_destination_connection_id transport parameter must be at most 20 bytes"
      p.original_destination_connection_id ([], [])
    >>= append_checked_numeric_transport_parameter 0x01 p.max_idle_timeout
    >>= append_checked_numeric_transport_parameter 0x03 p.max_udp_payload_size
    >>= append_checked_numeric_transport_parameter 0x04 p.initial_max_data
    >>= append_checked_numeric_transport_parameter 0x05 p.initial_max_stream_data_bidi_local
    >>= append_checked_numeric_transport_parameter 0x06 p.initial_max_stream_data_bidi_remote
    >>= append_checked_numeric_transport_parameter 0x07 p.initial_max_stream_data_uni
    >>= append_checked_numeric_transport_parameter 0x08 p.initial_max_streams_bidi
    >>= append_checked_numeric_transport_parameter 0x09 p.initial_max_streams_uni
    >>= append_checked_numeric_transport_parameter 0x0a p.ack_delay_exponent
    >>= append_checked_numeric_transport_parameter 0x0b p.max_ack_delay
    >>= append_disable_active_migration p.disable_active_migration
    >>= append_checked_numeric_transport_parameter 0x0e p.active_connection_id_limit
    >>= append_connection_id_transport_parameter 0x0f
        "initial_source_connection_id transport parameter must be at most 20 bytes"
        p.initial_source_connection_id
    >>= append_connection_id_transport_parameter 0x10
        "retry_source_connection_id transport parameter must be at most 20 bytes"
        p.retry_source_connection_id
    >>= append_unknowns p.unknown
    >>= λ w. ok w.0
