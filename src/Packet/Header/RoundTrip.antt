-- ===== src/Packet/Header/RoundTrip.antt =====
-- A long header that encodes is decoded to itself.
use flow_q.Prelude.{
  ℕ, ◌%◌, ◌^◌, ◌<◌, ◌≤◌, ◌≡◌, ◌∙◌, ap, sym, refl, arith, bit_and, true, false, not,
}
use flow_q.Prelude.{List, [], ◌∷◌, ◌++◌, length, ltb, ◌==◌, ◌||◌, All}
use flow_q.Prelude.{take-length-append, drop-length-append, length-append, ok, or_fail, String}
use flow_q.Prelude.{bind-eq-ok, or_fail-eq-ok, ok-injective, if-err-eq-ok}
use flow_q.Frame.{ConnectionId}
use flow_q.Frame.Cursor.{append_varint-eq-some, read_varint_at-bytes}
use flow_q.Varint.Bytes.{varint_bytes}
use flow_q.Packet.Header.{
  VersionNegotiationHeader, InitialHeader, HandshakeHeader, RetryHeader, PacketHeader,
  version_negotiation, initial, handshake, retry, short_packet, has_bits, append_u32,
  append_connection_ids, append_varint_to_packet, read_packet_varint_at,
}
use flow_q.Packet.Header.Encode.{
  encode_version_negotiation, encode_initial, encode_handshake, encode_retry, encode_packet_header,
}
use flow_q.Packet.Header.Decode.{
  decode_version_negotiation, decode_initial, decode_handshake, decode_retry, decode_long_type,
  decode_long, decode_packet_header,
}
use flow_q.Packet.Header.Fields.{
  u32_bytes, id_bytes, version_bytes, read_u32-bytes, append_connection_ids-eq-ok,
  read_connection_ids-bytes, append_versions_lem, read_versions-bytes, length-version_bytes,
}
use mathlib.Core.List.{append_assoc}

-- The first byte and the version of a long header of the type `kind`.
abbrev pub IsLongFirst : ℕ → ℕ → ℕ → Type 0
IsLongFirst kind first version =
    (has_bits first 0x80 ≡ true)
    × (has_bits first 0x40 ≡ true)
    × (bit_and first 0x30 ≡ kind)
    × (0 < version)
    × (version < 2 ^ 32)

-- The first byte agrees with the kind of the header, and versions are uint32_t. Version 0 is that
-- of version negotiation alone. A short header has no long form.
abbrev pub IsLongForm : PacketHeader → Type 0
IsLongForm (version_negotiation h) =
    (has_bits h.first_byte 0x80 ≡ true) × All (λ v. v < 2 ^ 32) h.supported_versions
IsLongForm (initial h) = IsLongFirst 0x00 h.first_byte h.version
IsLongForm (handshake h) = IsLongFirst 0x20 h.first_byte h.version
IsLongForm (retry h) = IsLongFirst 0x30 h.first_byte h.version
IsLongForm (short_packet h) = ⊥

-- The fields that long headers share, in front of `rest`.
abbrev long_bytes : ℕ → ℕ → ConnectionId → ConnectionId → List ℕ → List ℕ
long_bytes first version destination source rest =
    first ∷ (u32_bytes version ++ (id_bytes destination ++ (id_bytes source ++ rest)))

decode_long-ids :
    (kind first version : ℕ) (destination source : ConnectionId) (rest : List ℕ)
    → IsLongFirst kind first version
    → length destination.bytes ≤ 255
    → length source.bytes ≤ 255
    → decode_packet_header (long_bytes first version destination source rest)
      ≡ decode_long_type first version destination source rest
unfolding decode_packet_header decode_long
decode_long-ids kind first version destination source rest (long, fixed, kinds, pos, small) d s =
    let not_zero : version == 0 ≡ false = ground arith in
    rw
      (
        long,
        read_u32-bytes version (id_bytes destination ++ (id_bytes source ++ rest)) small,
        not_zero,
        fixed,
        read_connection_ids-bytes "truncated long-header connection ID" destination source rest d s,
      )
      refl

long_front :
    (first version : ℕ) (destination source : ConnectionId) (rest : List ℕ)
    → ((append_u32 (first ∷ []) version ++ id_bytes destination) ++ id_bytes source) ++ rest
      ≡ long_bytes first version destination source rest
unfolding append_u32
long_front first version destination source rest =
    append_assoc (append_u32 (first ∷ []) version ++ id_bytes destination) (id_bytes source) rest
    ∙ append_assoc (append_u32 (first ∷ []) version) (id_bytes destination)
        (id_bytes source ++ rest)

-- What the encoders write first is read back, and the type decides on the rest.
opening :
    (message : String) (kind first version : ℕ) (destination source : ConnectionId) (rest : List ℕ)
    {output : List ℕ}
    → append_connection_ids message (append_u32 (first ∷ []) version) destination source ≡ ok output
    → IsLongFirst kind first version
    → decode_packet_header (output ++ rest) ≡ decode_long_type first version destination source rest
opening message kind first version destination source rest ids long =
    let (d, s, written) = append_connection_ids-eq-ok message _ destination source ids in
    ap (λ (t : List ℕ). decode_packet_header (t ++ rest)) written
    ∙ ap decode_packet_header (long_front first version destination source rest)
    ∙ decode_long-ids kind first version destination source rest long d s

retry_round :
    (h : RetryHeader) {bytes : List ℕ}
    → IsLongForm (retry h)
    → encode_retry h ≡ ok bytes
    → decode_packet_header bytes ≡ ok (retry h)
unfolding encode_retry decode_retry decode_long_type
retry_round h long e =
    let (filled, built) = if-err-eq-ok (length h.opaque_retry_tail == 0) _ e in
    let (output, ids, tail) = bind-eq-ok (append_connection_ids _ _ _ _) _ built in
    ap decode_packet_header (sym (ok-injective tail))
    ∙ opening _ 0x30 h.first_byte h.version h.destination_connection_id h.source_connection_id
        h.opaque_retry_tail ids long
    ∙ rw (long.2, filled) refl

handshake_round :
    (h : HandshakeHeader) {bytes : List ℕ}
    → IsLongForm (handshake h)
    → encode_handshake h ≡ ok bytes
    → decode_packet_header bytes ≡ ok (handshake h)
unfolding encode_handshake decode_handshake decode_long_type append_varint_to_packet
    read_packet_varint_at
handshake_round h long e =
    let (sized, built) = if-err-eq-ok (not (h.payload_length == length h.protected_payload)) _ e in
    let (output, ids, built₁) = bind-eq-ok (append_connection_ids _ _ _ _) _ built in
    let (output₁, size, tail) =
      bind-eq-ok (or_fail (append_varint_to_packet output h.payload_length) _) _ built₁ in
    let (small, written) = append_varint-eq-some output h.payload_length (or_fail-eq-ok _ _ size) in
    ap decode_packet_header (
      sym (ok-injective tail)
      ∙ ap (◌++ h.protected_payload) written
      ∙ append_assoc output (varint_bytes h.payload_length) h.protected_payload)
    ∙ opening _ 0x20 h.first_byte h.version h.destination_connection_id h.source_connection_id
        (varint_bytes h.payload_length ++ h.protected_payload) ids long
    ∙ rw (long.2, read_varint_at-bytes h.payload_length small h.protected_payload, sized) refl

initial_round :
    (h : InitialHeader) {bytes : List ℕ}
    → IsLongForm (initial h)
    → encode_initial h ≡ ok bytes
    → decode_packet_header bytes ≡ ok (initial h)
unfolding encode_initial decode_initial decode_long_type append_varint_to_packet
    read_packet_varint_at
initial_round h long e =
    let (sized, built) = if-err-eq-ok (not (h.payload_length == length h.protected_payload)) _ e in
    let (output, ids, built₁) = bind-eq-ok (append_connection_ids _ _ _ _) _ built in
    let (output₁, first, built₂) =
      bind-eq-ok (or_fail (append_varint_to_packet output (length h.token)) _) _ built₁ in
    let (output₂, second, tail) =
      bind-eq-ok (or_fail (append_varint_to_packet (output₁ ++ h.token) h.payload_length) _) _
        built₂ in
    let (small, written) =
      append_varint-eq-some output (length h.token) (or_fail-eq-ok _ _ first) in
    let (small', written') =
      append_varint-eq-some (output₁ ++ h.token) h.payload_length (or_fail-eq-ok _ _ second) in
    let behind : List ℕ = varint_bytes h.payload_length ++ h.protected_payload in
    let fits : ltb (length (h.token ++ behind)) (length h.token) ≡ false =
      ground (arith, length-append h.token behind) in
    ap decode_packet_header (
      sym (ok-injective tail)
      ∙ ap (◌++ h.protected_payload) written'
      ∙ append_assoc (output₁ ++ h.token) (varint_bytes h.payload_length) h.protected_payload
      ∙ ap (λ (t : List ℕ). (t ++ h.token) ++ behind) written
      ∙ append_assoc (output ++ varint_bytes (length h.token)) h.token behind
      ∙ append_assoc output (varint_bytes (length h.token)) (h.token ++ behind))
    ∙ opening _ 0x00 h.first_byte h.version h.destination_connection_id h.source_connection_id
        (varint_bytes (length h.token) ++ (h.token ++ behind)) ids long
    ∙ rw
        (
          long.2,
          read_varint_at-bytes (length h.token) small (h.token ++ behind),
          fits,
          take-length-append h.token behind,
          drop-length-append h.token behind,
          read_varint_at-bytes h.payload_length small' h.protected_payload,
          sized,
        )
        refl

version_negotiation_round :
    (h : VersionNegotiationHeader) {bytes : List ℕ}
    → IsLongForm (version_negotiation h)
    → encode_version_negotiation h ≡ ok bytes
    → decode_packet_header bytes ≡ ok (version_negotiation h)
unfolding encode_version_negotiation decode_version_negotiation decode_packet_header decode_long
version_negotiation_round h (long, all) e =
    let versions = h.supported_versions in
    let (filled, built) = if-err-eq-ok (length versions == 0) _ e in
    let (output, ids, tail) = bind-eq-ok (append_connection_ids _ _ _ _) _ built in
    let (d, s, written) = append_connection_ids-eq-ok _ _ _ _ ids in
    let listed : length (version_bytes versions) == 0
          || not (length (version_bytes versions) % 4 == 0)
        ≡ false =
      ground (arith, length-version_bytes versions) in
    ap decode_packet_header (
      sym (ok-injective tail)
      ∙ append_versions_lem output versions
      ∙ ap (◌++ version_bytes versions) written
      ∙ long_front h.first_byte 0 h.destination_connection_id h.source_connection_id
          (version_bytes versions))
    ∙ rw
        (
          long,
          read_u32-bytes 0
              (id_bytes h.destination_connection_id
                ++ (id_bytes h.source_connection_id ++ version_bytes versions))
              (omega arith),
          read_connection_ids-bytes "truncated Version Negotiation connection ID"
              h.destination_connection_id h.source_connection_id (version_bytes versions) d s,
          listed,
          read_versions-bytes versions all,
        )
        refl

-- Every long header that encodes, and of which the first byte agrees with its kind and the versions
-- are 32-bit and, but for Version Negotiation, above 0, is decoded to itself.
pub decode_packet_header-encode :
    (header : PacketHeader) (bytes : List ℕ)
    → IsLongForm header
    → encode_packet_header header ≡ ok bytes
    → decode_packet_header bytes ≡ ok header
unfolding encode_packet_header
decode_packet_header-encode (version_negotiation h) bytes long e =
    version_negotiation_round h long e
decode_packet_header-encode (initial h) bytes long e = initial_round h long e
decode_packet_header-encode (handshake h) bytes long e = handshake_round h long e
decode_packet_header-encode (retry h) bytes long e = retry_round h long e
decode_packet_header-encode (short_packet h) bytes long e = absurd long
