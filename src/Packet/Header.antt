-- ===== src/Packet/Header.antt =====
-- include/flowq/quic/packet_header.hpp: the packet headers and the fields that they share. The cursor `offset` is the suffix of the input behind it.
pub mod Encode
pub mod Decode
pub mod Fields
pub mod RoundTrip
pub mod Short
mod Examples
use flow_q.Prelude.{
  ℕ, zero, suc, ◌+◌, ◌-◌, ◌*◌, ◌/◌, ◌%◌, ◌^◌, Bool, true, false, not, Option, none, some,
}
use flow_q.Prelude.{
  List, [], ◌∷◌, ◌++◌, length, take, drop, replicate, ltb, leb, ◌==◌, ◌||◌, if◌then◌else◌,
}
use flow_q.Prelude.{bit_and, bit_or, Result, ok, err, ◌>>=◌, or_fail, Error, protocol_error, String}
use flow_q.Varint.{to_byte}
use flow_q.Frame.{ConnectionId}
use flow_q.Frame.Encode.{append_varint}
use flow_q.Frame.Decode.{read_varint_at}
use flow_q.Packet.Number.{
  encode_packet_number, read_truncated_packet_number, valid_packet_number_length,
}

pub record VersionNegotiationHeader : Type 0 where
  pub first_byte : ℕ
  pub destination_connection_id : ConnectionId
  pub source_connection_id : ConnectionId
  pub supported_versions : List ℕ

pub record InitialHeader : Type 0 where
  pub first_byte : ℕ
  pub version : ℕ
  pub destination_connection_id : ConnectionId
  pub source_connection_id : ConnectionId
  pub token : List ℕ
  pub payload_length : ℕ
  pub protected_payload : List ℕ

pub record HandshakeHeader : Type 0 where
  pub first_byte : ℕ
  pub version : ℕ
  pub destination_connection_id : ConnectionId
  pub source_connection_id : ConnectionId
  pub payload_length : ℕ
  pub protected_payload : List ℕ

pub record RetryHeader : Type 0 where
  pub first_byte : ℕ
  pub version : ℕ
  pub destination_connection_id : ConnectionId
  pub source_connection_id : ConnectionId
  pub opaque_retry_tail : List ℕ

pub record ShortHeader : Type 0 where
  pub first_byte : ℕ
  pub destination_connection_id : ConnectionId
  pub fixed_bit : Bool
  pub spin_bit : Bool
  pub key_phase : Bool
  pub packet_number_length : ℕ
  pub truncated_packet_number : ℕ
  pub protected_payload : List ℕ

pub data PacketHeader : Type 0 where
  version_negotiation : VersionNegotiationHeader → PacketHeader
  initial : InitialHeader → PacketHeader
  handshake : HandshakeHeader → PacketHeader
  retry : RetryHeader → PacketHeader
  short_packet : ShortHeader → PacketHeader

abbrev pub packet_error : String → Error
packet_error message = record { error_code = protocol_error; message = message }

-- `first & mask` is not 0.
abbrev pub has_bits : ℕ → ℕ → Bool
has_bits first mask = not (bit_and first mask == 0)

unfoldable pub read_u32 : List ℕ → Option (ℕ × List ℕ)
read_u32 (a ∷ b ∷ c ∷ d ∷ rest) =
    some (bit_or (bit_or (bit_or (a * 2 ^ 24 % 2 ^ 32) (b * 2 ^ 16)) (c * 2 ^ 8)) d, rest)
read_u32 _ = none

unfoldable pub append_u32 : List ℕ → ℕ → List ℕ
append_u32 output value =
    output
    ++ (to_byte (bit_and (value / 2 ^ 24) 0xff)
        ∷ to_byte (bit_and (value / 2 ^ 16) 0xff)
        ∷ to_byte (bit_and (value / 2 ^ 8) 0xff)
        ∷ to_byte (bit_and value 0xff)
        ∷ [])

unfoldable pub read_connection_id : List ℕ → Option (ConnectionId × List ℕ)
read_connection_id [] = none
read_connection_id (size ∷ input) =
    if ltb (length input) size
    then none
    else some (record { bytes = take size input }, drop size input)

unfoldable pub append_connection_id : List ℕ → ConnectionId → Option (List ℕ)
append_connection_id output id =
    if ltb 255 (length id.bytes)
    then none
    else some (output ++ (to_byte (length id.bytes) ∷ id.bytes))

-- `append_varint_to_packet` and `read_packet_varint_at` have the code of their namesakes of the
-- frames.
unfoldable pub append_varint_to_packet : List ℕ → ℕ → Option (List ℕ)
append_varint_to_packet output value = append_varint output value

unfoldable pub read_packet_varint_at : List ℕ → Option (ℕ × List ℕ)
read_packet_varint_at input = read_varint_at input

-- The two connection IDs that every long header has.
unfoldable pub read_connection_ids : String → List ℕ → Result (ConnectionId × ConnectionId × List ℕ)
read_connection_ids message input = do
  (destination, input₁) ← or_fail (read_connection_id input) (packet_error message)
  (source, input₂) ← or_fail (read_connection_id input₁) (packet_error message)
  ok (destination, source, input₂)

unfoldable pub append_connection_ids :
    String → List ℕ → ConnectionId → ConnectionId → Result (List ℕ)
append_connection_ids message output destination source = do
  output₁ ← or_fail (append_connection_id output destination) (packet_error message)
  or_fail (append_connection_id output₁ source) (packet_error message)
