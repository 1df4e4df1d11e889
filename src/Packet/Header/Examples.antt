-- ===== src/Packet/Header/Examples.antt =====
-- Runs of the packet headers, and their theorems at concrete inputs.
use flow_q.Prelude.{ℕ, ◌≡◌, refl, arith, List, [], ◌∷◌, ok, err, true, false}
use flow_q.Varint.{encode_varint}
use flow_q.Frame.Encode.{append_varint}
use flow_q.Packet.Number.{encode_packet_number, packet_number_bytes, valid_packet_number_length}
use flow_q.Packet.Header.{
  InitialHeader, ShortHeader, initial, short_packet, append_u32, append_connection_id,
  append_connection_ids, append_varint_to_packet, packet_error,
}
use flow_q.Packet.Header.Encode.{
  encode_packet_header, encode_initial, encode_short, short_header_first_byte,
}
use flow_q.Packet.Header.Decode.{decode_packet_header, decode_short_header}
use flow_q.Packet.Header.RoundTrip.{decode_packet_header-encode}
use flow_q.Packet.Header.Short.{decode_short_header-encode}

abbrev first_flight : InitialHeader
first_flight = record {
  first_byte = 0xc3;
  version = 1;
  destination_connection_id = record { bytes = 1 ∷ 2 ∷ 3 ∷ [] };
  source_connection_id = record { bytes = [] };
  token = 9 ∷ [];
  payload_length = 2;
  protected_payload = 0xaa ∷ 0xbb ∷ [];
}

abbrev first_flight_wire : List ℕ
first_flight_wire = 0xc3 ∷ 0 ∷ 0 ∷ 0 ∷ 1 ∷ 3 ∷ 1 ∷ 2 ∷ 3 ∷ 0 ∷ 1 ∷ 9 ∷ 2 ∷ 0xaa ∷ 0xbb ∷ []

first_flight_encoded : encode_packet_header (initial first_flight) ≡ ok first_flight_wire
unfolding encode_packet_header encode_initial append_connection_ids append_connection_id append_u32
    append_varint_to_packet append_varint encode_varint
first_flight_encoded = refl

decode_packet_header-encode_example :
    decode_packet_header first_flight_wire ≡ ok (initial first_flight)
decode_packet_header-encode_example =
    decode_packet_header-encode (initial first_flight) first_flight_wire
      (refl, refl, refl, omega arith, omega arith) first_flight_encoded

abbrev one_rtt : ShortHeader
one_rtt = record {
  first_byte = 0;
  destination_connection_id = record { bytes = 7 ∷ 8 ∷ [] };
  fixed_bit = true;
  spin_bit = false;
  key_phase = true;
  packet_number_length = 2;
  truncated_packet_number = 0x1234;
  protected_payload = 0xcc ∷ [];
}

abbrev one_rtt_wire : List ℕ
one_rtt_wire = 0x45 ∷ 7 ∷ 8 ∷ 0x12 ∷ 0x34 ∷ 0xcc ∷ []

one_rtt_encoded : encode_short one_rtt ≡ ok one_rtt_wire
unfolding encode_short short_header_first_byte encode_packet_number packet_number_bytes
    valid_packet_number_length
one_rtt_encoded = refl

decode_short_header-encode_example :
    decode_short_header one_rtt_wire 2 ≡ ok (short_packet (record one_rtt { first_byte = 0x45 }))
unfolding short_header_first_byte
decode_short_header-encode_example = decode_short_header-encode one_rtt one_rtt_wire one_rtt_encoded

reserved_bits_refused :
    decode_short_header (0x05 ∷ 7 ∷ []) 0 ≡ err (packet_error "short header fixed bit is not set")
unfolding decode_short_header
reserved_bits_refused = refl
