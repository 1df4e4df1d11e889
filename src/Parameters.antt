-- ===== src/Parameters.antt =====
-- include/flowq/quic/transport_parameters.hpp: the transport parameters and their checks.
pub mod Encode
pub mod Decode
pub mod Chunks
pub mod Steps
pub mod RoundTrip
pub mod Checked
mod Examples
use flow_q.Prelude.{ℕ, Bool, true, false, ◌&&◌, ◌||◌, Option, none, some, String}
use flow_q.Prelude.{List, [], ◌∷◌, ◌++◌, length, ltb, leb, ◌==◌, if◌then◌else◌}
use flow_q.Prelude.{Error, Result, ok, err, codec_error}
use flow_q.Varint.{max_varint}

pub record UnknownTransportParameter : Type 0 where
  pub id : ℕ
  pub value : List ℕ

pub record TransportParameters : Type 0 where
  pub original_destination_connection_id : Option (List ℕ)
  pub max_idle_timeout : Option ℕ
  pub max_udp_payload_size : Option ℕ
  pub initial_max_data : Option ℕ
  pub initial_max_stream_data_bidi_local : Option ℕ
  pub initial_max_stream_data_bidi_remote : Option ℕ
  pub initial_max_stream_data_uni : Option ℕ
  pub initial_max_streams_bidi : Option ℕ
  pub initial_max_streams_uni : Option ℕ
  pub ack_delay_exponent : Option ℕ
  pub max_ack_delay : Option ℕ
  pub disable_active_migration : Bool
  pub active_connection_id_limit : Option ℕ
  pub initial_source_connection_id : Option (List ℕ)
  pub retry_source_connection_id : Option (List ℕ)
  pub unknown : List UnknownTransportParameter

abbrev pub no_parameters : TransportParameters
no_parameters = record {
  original_destination_connection_id = none;
  max_idle_timeout = none;
  max_udp_payload_size = none;
  initial_max_data = none;
  initial_max_stream_data_bidi_local = none;
  initial_max_stream_data_bidi_remote = none;
  initial_max_stream_data_uni = none;
  initial_max_streams_bidi = none;
  initial_max_streams_uni = none;
  ack_delay_exponent = none;
  max_ack_delay = none;
  disable_active_migration = false;
  active_connection_id_limit = none;
  initial_source_connection_id = none;
  retry_source_connection_id = none;
  unknown = [];
}

unfoldable pub known_transport_parameter_id : ℕ → Bool
known_transport_parameter_id id =
    id == 0x00
    || id == 0x01
    || id == 0x03
    || id == 0x04
    || id == 0x05
    || id == 0x06
    || id == 0x07
    || id == 0x08
    || id == 0x09
    || id == 0x0a
    || id == 0x0b
    || id == 0x0c
    || id == 0x0e
    || id == 0x0f
    || id == 0x10

unfoldable pub already_seen : List ℕ → ℕ → Bool
already_seen [] id = false
already_seen (other ∷ seen) id = other == id || already_seen seen id

-- `emitted.push_back(id)`, behind the two tests.
unfoldable pub remember_transport_parameter : List ℕ → ℕ → Result (List ℕ)
remember_transport_parameter emitted id =
    if ltb max_varint id
    then err (codec_error "QUIC transport parameter identifier exceeds varint maximum")
    else if already_seen emitted id
    then err (codec_error "duplicate QUIC transport parameter")
    else ok (emitted ++ (id ∷ []))

-- An error that is `ok` is `none`.
unfoldable pub validate_transport_parameter_for_encode : ℕ → ℕ → Option Error
validate_transport_parameter_for_encode id value =
    if ltb max_varint value
    then some (codec_error "QUIC transport parameter value exceeds varint maximum")
    else if id == 0x03 && ltb value 1200
    then some (codec_error "max_udp_payload_size transport parameter must be at least 1200")
    else if id == 0x0e && ltb value 2
    then some (codec_error "active_connection_id_limit transport parameter must be at least 2")
    else if id == 0x0a && ltb 20 value
    then some (codec_error "ack_delay_exponent transport parameter must be at most 20")
    else if id == 0x0b && leb 16384 value
    then some (codec_error "max_ack_delay transport parameter must be less than 16384")
    else none

unfoldable pub validate_connection_id_transport_parameter : List ℕ → String → Option Error
validate_connection_id_transport_parameter value message =
    if ltb 20 (length value) then some (codec_error message) else none

abbrev pub unless_error {ℓ} : {A : Type ℓ} → Option Error → Result A → Result A
unless_error none result = result
unless_error (some e) result = err e
