-- ===== src/Parameters/Examples.antt =====
-- Transport parameters encoded and decoded, and the theorems at concrete inputs.
use flow_q.Prelude.{ℕ, List, ◌≡◌, refl, true, some, [], ◌∷◌, ok, err, codec_error}
use flow_q.Varint.{encoded_size, encode_varint, decode_varint, shift_in, shift_in_all}
use flow_q.Parameters.{
  TransportParameters, no_parameters, known_transport_parameter_id, already_seen,
  remember_transport_parameter, validate_transport_parameter_for_encode,
  validate_connection_id_transport_parameter,
}
use flow_q.Parameters.Encode.{
  append_transport_varint, encode_transport_varint_value, append_transport_parameter,
  append_connection_id_transport_parameter, append_checked_numeric_transport_parameter,
  append_disable_active_migration, append_unknown, append_unknowns, encode_transport_parameters,
}
use flow_q.Parameters.Decode.{
  decode_parameter_varint, assign_numeric_parameter, assign_parameter, decode_value, decode_round,
  decode_parameters, decode_transport_parameters,
}
use flow_q.Parameters.RoundTrip.{decode_transport_parameters-encode}
use flow_q.Parameters.Checked.{IsOutcome, decode_transport_parameters_total}

abbrev some_parameters : TransportParameters
some_parameters = record no_parameters {
  original_destination_connection_id = some (1 ∷ 2 ∷ 3 ∷ []);
  max_udp_payload_size = some 1472;
  initial_max_data = some 10;
  disable_active_migration = true;
  unknown = record { id = 0x21; value = 7 ∷ [] } ∷ [];
}

abbrev their_bytes : List ℕ
their_bytes =
    0x00 ∷ 3 ∷ 1 ∷ 2 ∷ 3 ∷ 0x03 ∷ 2 ∷ 0x45 ∷ 0xc0 ∷ 0x04 ∷ 1 ∷ 10 ∷ 0x0c ∷ 0 ∷ 0x21 ∷ 1 ∷ 7 ∷ []

some_parameters-encoded : encode_transport_parameters some_parameters ≡ ok their_bytes
unfolding encode_transport_parameters append_connection_id_transport_parameter
    append_checked_numeric_transport_parameter append_disable_active_migration append_unknowns
    append_unknown append_transport_parameter encode_transport_varint_value append_transport_varint
    encoded_size encode_varint remember_transport_parameter already_seen
    known_transport_parameter_id validate_transport_parameter_for_encode
    validate_connection_id_transport_parameter
some_parameters-encoded = refl

decode_transport_parameters-encode_example :
    decode_transport_parameters their_bytes ≡ some (ok some_parameters)
decode_transport_parameters-encode_example =
    decode_transport_parameters-encode some_parameters their_bytes some_parameters-encoded

-- The same parameter twice.
duplicate_refused :
    decode_transport_parameters (0x01 ∷ 1 ∷ 5 ∷ 0x01 ∷ 1 ∷ 5 ∷ [])
    ≡ some (err (codec_error "duplicate QUIC transport parameter"))
unfolding decode_transport_parameters decode_parameters decode_round decode_value already_seen
    assign_parameter assign_numeric_parameter decode_parameter_varint decode_varint shift_in
    shift_in_all
duplicate_refused = refl

decode_transport_parameters_total_example : IsOutcome (decode_transport_parameters their_bytes)
decode_transport_parameters_total_example = decode_transport_parameters_total their_bytes
