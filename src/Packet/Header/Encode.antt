-- ===== src/Packet/Header/Encode.antt =====
-- include/flowq/quic/packet_header.hpp: `encode_packet_header` and the encoders that it calls.
use flow_q.Prelude.{ℕ, ◌-◌, not}
use flow_q.Prelude.{List, [], ◌∷◌, ◌++◌, length, take, replicate, ◌==◌, if◌then◌else◌}
use flow_q.Prelude.{bit_and, bit_or, Result, ok, err, ◌>>=◌, or_fail}
use flow_q.Packet.Number.{encode_packet_number, valid_packet_number_length}
use flow_q.Packet.Header.{
  VersionNegotiationHeader, InitialHeader, HandshakeHeader, RetryHeader, ShortHeader, PacketHeader,
  version_negotiation, initial, handshake, retry, short_packet, packet_error, append_u32,
  append_connection_ids, append_varint_to_packet,
}

unfoldable pub append_versions : List ℕ → List ℕ → List ℕ
append_versions output [] = output
append_versions output (version ∷ versions) = append_versions (append_u32 output version) versions

unfoldable pub encode_version_negotiation : VersionNegotiationHeader → Result (List ℕ)
encode_version_negotiation h =
    if length h.supported_versions == 0
    then err (packet_error "Version Negotiation requires at least one version")
    else append_connection_ids "connection ID is too long" (append_u32 (h.first_byte ∷ []) 0)
        h.destination_connection_id h.source_connection_id
      >>= λ output. ok (append_versions output h.supported_versions)

unfoldable pub encode_initial : InitialHeader → Result (List ℕ)
encode_initial h =
    if not (h.payload_length == length h.protected_payload)
    then err (packet_error "Initial length must match protected payload size")
    else append_connection_ids "failed to encode Initial header"
        (append_u32 (h.first_byte ∷ []) h.version) h.destination_connection_id
        h.source_connection_id
      >>= λ output.
          or_fail (append_varint_to_packet output (length h.token))
            (packet_error "failed to encode Initial header")
          >>= λ output₁.
              or_fail (append_varint_to_packet (output₁ ++ h.token) h.payload_length)
                (packet_error "failed to encode Initial length")
              >>= λ output₂. ok (output₂ ++ h.protected_payload)

unfoldable pub encode_handshake : HandshakeHeader → Result (List ℕ)
encode_handshake h =
    if not (h.payload_length == length h.protected_payload)
    then err (packet_error "Handshake length must match protected payload size")
    else append_connection_ids "failed to encode Handshake header"
        (append_u32 (h.first_byte ∷ []) h.version) h.destination_connection_id
        h.source_connection_id
      >>= λ output.
          or_fail (append_varint_to_packet output h.payload_length)
            (packet_error "failed to encode Handshake header")
          >>= λ output₁. ok (output₁ ++ h.protected_payload)

unfoldable pub encode_retry : RetryHeader → Result (List ℕ)
encode_retry h =
    if length h.opaque_retry_tail == 0
    then err (packet_error "Retry packet requires an opaque tail")
    else append_connection_ids "connection ID is too long"
        (append_u32 (h.first_byte ∷ []) h.version) h.destination_connection_id
        h.source_connection_id
      >>= λ output. ok (output ++ h.opaque_retry_tail)

unfoldable pub short_header_first_byte : ShortHeader → ℕ
short_header_first_byte h =
    let first₀ = bit_and (h.packet_number_length - 1) 0x03 in
    let first₁ = if h.fixed_bit then bit_or first₀ 0x40 else first₀ in
    let first₂ = if h.spin_bit then bit_or first₁ 0x20 else first₁ in
    if h.key_phase then bit_or first₂ 0x04 else first₂

unfoldable pub encode_short : ShortHeader → Result (List ℕ)
encode_short h =
    if not h.fixed_bit
    then err (packet_error "short header fixed bit must be set")
    else if not (valid_packet_number_length h.packet_number_length)
    then err (packet_error "short header packet number length must be 1 to 4 bytes")
    else encode_packet_number h.truncated_packet_number h.packet_number_length (replicate 4 0)
      >>= λ (written, bytes). ok (
          short_header_first_byte h
          ∷ (h.destination_connection_id.bytes
              ++ (take h.packet_number_length bytes ++ h.protected_payload)))

unfoldable pub encode_packet_header : PacketHeader → Result (List ℕ)
encode_packet_header (version_negotiation h) = encode_version_negotiation h
encode_packet_header (initial h) = encode_initial h
encode_packet_header (handshake h) = encode_handshake h
encode_packet_header (retry h) = encode_retry h
encode_packet_header (short_packet h) = encode_short h
