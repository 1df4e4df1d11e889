-- ===== src/Parameters/Decode.antt =====
-- include/flowq/quic/transport_parameters.hpp: `decode_transport_parameters`. The cursor `offset` is
-- the suffix of the input behind it.
use flow_q.Prelude.{ℕ, zero, suc, true, not, Option, none, some, String}
use flow_q.Prelude.{List, [], ◌∷◌, ◌++◌, length, take, drop, ltb, leb, ◌==◌, if◌then◌else◌}
use flow_q.Prelude.{Result, ok, err, ◌>>=◌, codec_error}
use flow_q.Varint.{decode_varint}
use flow_q.Parameters.{
  TransportParameters, no_parameters, already_seen, validate_connection_id_transport_parameter,
  unless_error,
}

unfoldable pub decode_parameter_varint : List ℕ → Option ℕ
decode_parameter_varint value = elim (decode_varint value) [
  | err e ↦ none
  | ok (decoded, bytes_read) ↦ if not (bytes_read == length value) then none else some decoded
]

-- The value for the target.
unfoldable pub assign_numeric_parameter : List ℕ → String → Result ℕ
assign_numeric_parameter value message = elim (decode_parameter_varint value) [
  | none ↦ err (codec_error message)
  | some decoded ↦ ok decoded
]

-- The `switch` on the identifier. An error ends the loop, so the result that goes with it is dropped.
unfoldable pub assign_parameter : TransportParameters → ℕ → List ℕ → Result TransportParameters
assign_parameter result id value =
    if id == 0x00
    then unless_error
        (validate_connection_id_transport_parameter value
          "original_destination_connection_id transport parameter must be at most 20 bytes")
        (ok (record result { original_destination_connection_id = some value }))
    else if id == 0x01
    then (assign_numeric_parameter value "malformed max_idle_timeout transport parameter" >>= λ n.
        ok (record result { max_idle_timeout = some n }))
    else if id == 0x03
    then (assign_numeric_parameter value "malformed max_udp_payload_size transport parameter"
        >>= λ n.
            if ltb n 1200
            then err (codec_error "max_udp_payload_size transport parameter must be at least 1200")
            else ok (record result { max_udp_payload_size = some n }))
    else if id == 0x04
    then (assign_numeric_parameter value "malformed initial_max_data transport parameter" >>= λ n.
        ok (record result { initial_max_data = some n }))
    else if id == 0x05
    then (assign_numeric_parameter value
          "malformed initial_max_stream_data_bidi_local transport parameter"
        >>= λ n. ok (record result { initial_max_stream_data_bidi_local = some n }))
    else if id == 0x06
    then (assign_numeric_parameter value
          "malformed initial_max_stream_data_bidi_remote transport parameter"
        >>= λ n. ok (record result { initial_max_stream_data_bidi_remote = some n }))
    else if id == 0x07
    then (assign_numeric_parameter value "malformed initial_max_stream_data_uni transport parameter"
        >>= λ n. ok (record result { initial_max_stream_data_uni = some n }))
    else if id == 0x08
    then (assign_numeric_parameter value "malformed initial_max_streams_bidi transport parameter"
        >>= λ n. ok (record result { initial_max_streams_bidi = some n }))
    else if id == 0x09
    then (assign_numeric_parameter value "malformed initial_max_streams_uni transport parameter"
        >>= λ n. ok (record result { initial_max_streams_uni = some n }))
    else if id == 0x0a
    then (assign_numeric_parameter value "malformed ack_delay_exponent transport parameter" >>= λ n.
        if ltb 20 n
        then err (codec_error "ack_delay_exponent transport parameter must be at most 20")
        else ok (record result { ack_delay_exponent = some n }))
    else if id == 0x0b
    then (assign_numeric_parameter value "malformed max_ack_delay transport parameter" >>= λ n.
        if leb 16384 n
        then err (codec_error "max_ack_delay transport parameter must be less than 16384")
        else ok (record result { max_ack_delay = some n }))
    else if id == 0x0c
    then (if not (length value == 0)
        then err (codec_error "disable_active_migration transport parameter must be empty")
        else ok (record result { disable_active_migration = true }))
    else if id == 0x0e
    then (assign_numeric_parameter value "malformed active_connection_id_limit transport parameter"
        >>= λ n.
            if ltb n 2
            then err
                (codec_error "active_connection_id_limit transport parameter must be at least 2")
            else ok (record result { active_connection_id_limit = some n }))
    else if id == 0x0f
    then unless_error
        (validate_connection_id_transport_parameter value
          "initial_source_connection_id transport parameter must be at most 20 bytes")
        (ok (record result { initial_source_connection_id = some value }))
    else if id == 0x10
    then unless_error
        (validate_connection_id_transport_parameter value
          "retry_source_connection_id transport parameter must be at most 20 bytes")
        (ok (record result { retry_source_connection_id = some value }))
    else ok (record result { unknown = result.unknown ++ (record { id = id; value = value } ∷ []) })

-- The parameters, the identifiers seen, and the input behind the cursor.
abbrev pub Round : Type 0
Round = TransportParameters × List ℕ × List ℕ

-- One round of the loop, behind the identifier and the length.
unfoldable pub decode_value : TransportParameters → List ℕ → ℕ → ℕ → List ℕ → Result Round
decode_value result seen id size input =
    if ltb (length input) size
    then err (codec_error "truncated QUIC transport parameter value")
    else if already_seen seen id
    then err (codec_error "duplicate QUIC transport parameter")
    else assign_parameter result id (take size input) >>= λ result'.
        ok (result', seen ++ (id ∷ []), drop size input)

unfoldable pub decode_round : TransportParameters → List ℕ → List ℕ → Result Round
decode_round result seen input = decode_varint input >>= λ (id, id_size).
    decode_varint (drop id_size input) >>= λ (size, size_size).
    decode_value result seen id size (drop size_size (drop id_size input))

-- `none` is for a fuel that does not suffice.
unfoldable pub decode_parameters :
    ℕ → TransportParameters → List ℕ → List ℕ → Option (Result TransportParameters)
decode_parameters fuel result seen [] = some (ok result)
decode_parameters zero result seen (b ∷ input) = none
decode_parameters (suc fuel) result seen (b ∷ input) = elim (decode_round result seen (b ∷ input)) [
  | err e ↦ some (err e)
  | ok (result', seen', rest) ↦ decode_parameters fuel result' seen' rest
]

unfoldable pub decode_transport_parameters : List ℕ → Option (Result TransportParameters)
decode_transport_parameters input = decode_parameters (length input) no_parameters [] input
