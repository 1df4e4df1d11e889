-- ===== src/Packet/Header/Decode.antt =====
-- include/flowq/quic/packet_header.hpp: `decode_packet_header` and `decode_short_header`.
use flow_q.Prelude.{ℕ, ◌+◌, ◌%◌, true, not}
use flow_q.Prelude.{List, [], ◌∷◌, length, take, drop, ltb, ◌==◌, ◌||◌, if◌then◌else◌}
use flow_q.Prelude.{bit_and, Result, ok, err, ◌>>=◌, or_fail}
use flow_q.Frame.{ConnectionId}
use flow_q.Packet.Number.{read_truncated_packet_number}
use flow_q.Packet.Header.{
  PacketHeader, version_negotiation, initial, handshake, retry, short_packet, packet_error,
  has_bits, read_u32, read_connection_ids, read_packet_varint_at,
}

-- The loop of `decode_version_negotiation`, four bytes a round.
unfoldable pub read_versions : List ℕ → Result (List ℕ)
read_versions [] = ok []
read_versions (a ∷ b ∷ c ∷ d ∷ input) =
    or_fail (read_u32 (a ∷ b ∷ c ∷ d ∷ input))
      (packet_error "truncated Version Negotiation version")
    >>= λ (version, rest). read_versions input >>= λ versions. ok (version ∷ versions)
read_versions _ = err (packet_error "truncated Version Negotiation version")

unfoldable pub decode_version_negotiation : ℕ → List ℕ → Result PacketHeader
decode_version_negotiation first input =
    read_connection_ids "truncated Version Negotiation connection ID" input
    >>= λ (destination, source, rest).
        if length rest == 0 || not (length rest % 4 == 0)
        then err (packet_error "invalid Version Negotiation version list length")
        else read_versions rest >>= λ versions. ok (
            version_negotiation (record {
              first_byte = first;
              destination_connection_id = destination;
              source_connection_id = source;
              supported_versions = versions;
            }))

unfoldable pub decode_initial : ℕ → ℕ → ConnectionId → ConnectionId → List ℕ → Result PacketHeader
decode_initial first version destination source input =
    or_fail (read_packet_varint_at input) (packet_error "truncated Initial token length")
    >>= λ (token_length, input₁).
        if ltb (length input₁) token_length
        then err (packet_error "truncated Initial token")
        else or_fail (read_packet_varint_at (drop token_length input₁))
            (packet_error "truncated Initial length")
          >>= λ (size, input₂).
              if not (size == length input₂)
              then err (packet_error "Initial protected payload length mismatch")
              else ok (
                  initial (record {
                    first_byte = first;
                    version = version;
                    destination_connection_id = destination;
                    source_connection_id = source;
                    token = take token_length input₁;
                    payload_length = size;
                    protected_payload = input₂;
                  }))

unfoldable pub decode_handshake : ℕ → ℕ → ConnectionId → ConnectionId → List ℕ → Result PacketHeader
decode_handshake first version destination source input =
    or_fail (read_packet_varint_at input) (packet_error "truncated Handshake length")
    >>= λ (size, input₁).
        if not (size == length input₁)
        then err (packet_error "Handshake protected payload length mismatch")
        else ok (
            handshake (record {
              first_byte = first;
              version = version;
              destination_connection_id = destination;
              source_connection_id = source;
              payload_length = size;
              protected_payload = input₁;
            }))

unfoldable pub decode_retry : ℕ → ℕ → ConnectionId → ConnectionId → List ℕ → Result PacketHeader
decode_retry first version destination source input =
    if length input == 0
    then err (packet_error "Retry packet has empty opaque tail")
    else ok (
        retry (record {
          first_byte = first;
          version = version;
          destination_connection_id = destination;
          source_connection_id = source;
          opaque_retry_tail = input;
        }))

unfoldable pub decode_long_type : ℕ → ℕ → ConnectionId → ConnectionId → List ℕ → Result PacketHeader
decode_long_type first version destination source input =
    if bit_and first 0x30 == 0x00
    then decode_initial first version destination source input
    else if bit_and first 0x30 == 0x20
    then decode_handshake first version destination source input
    else if bit_and first 0x30 == 0x30
    then decode_retry first version destination source input
    else err (packet_error "unsupported long-header packet type")

unfoldable pub decode_long : ℕ → ℕ → List ℕ → Result PacketHeader
decode_long first version input =
    if version == 0
    then decode_version_negotiation first input
    else if not (has_bits first 0x40)
    then err (packet_error "long header fixed bit is not set")
    else read_connection_ids "truncated long-header connection ID" input
      >>= λ (destination, source, rest). decode_long_type first version destination source rest

unfoldable pub decode_packet_header : List ℕ → Result PacketHeader
decode_packet_header [] = err (packet_error "empty packet header input")
decode_packet_header (first ∷ input) =
    if not (has_bits first 0x80)
    then err (packet_error "short headers are unsupported by this decoder")
    else or_fail (read_u32 input) (packet_error "truncated packet version") >>= λ (version, rest).
        decode_long first version rest

unfoldable pub decode_short_header : List ℕ → ℕ → Result PacketHeader
decode_short_header [] size = err (packet_error "empty short-header input")
decode_short_header (first ∷ input) size =
    let number_length = bit_and first 0x03 + 1 in
    if has_bits first 0x80
    then err (packet_error "short header must not use long-header form")
    else if not (has_bits first 0x40)
    then err (packet_error "short header fixed bit is not set")
    else if ltb (length input) size
    then err (packet_error "truncated short-header destination connection ID")
    else read_truncated_packet_number (drop size input) number_length >>= λ number. ok (
        short_packet (record {
          first_byte = first;
          destination_connection_id = record { bytes = take size input };
          fixed_bit = true;
          spin_bit = has_bits first 0x20;
          key_phase = has_bits first 0x04;
          packet_number_length = number_length;
          truncated_packet_number = number;
          protected_payload = drop number_length (drop size input);
        }))
