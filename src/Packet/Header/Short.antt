-- ===== src/Packet/Header/Short.antt =====
-- A short header that encodes is decoded to itself, with its packet number truncated.
use flow_q.Prelude.{
  ℕ, zero, suc, ◌+◌, ◌-◌, ◌*◌, ◌%◌, ◌^◌, ◌≤◌, ◌≡◌, ◌∙◌, ap, sym, refl, arith, bit_and, bit_or, Bool,
  true, false, not,
}
use flow_q.Prelude.{List, ◌∷◌, ◌++◌, length, take, drop, replicate, ltb, if◌then◌else◌}
use flow_q.Prelude.{
  take-length-append, drop-length-append, length-append, ok, ok-injective, if-err-eq-ok,
}
use flow_q.Packet.Number.{encode_packet_number, packet_number_bytes, valid_packet_number_length}
use flow_q.Packet.Number.Exchange.{
  take-packet_number_bytes, drop-packet_number_bytes, read_truncated_packet_number-bytes,
}
use flow_q.Packet.Header.{ShortHeader, short_packet, has_bits}
use flow_q.Packet.Header.Encode.{encode_short, short_header_first_byte}
use flow_q.Packet.Header.Decode.{decode_short_header}

-- The first byte of a short header with its fixed bit set, by its fields.
abbrev packed : ℕ → Bool → Bool → ℕ
packed size spin phase =
    let first₁ = bit_or (bit_and (size - 1) 0x03) 0x40 in
    let first₂ = if spin then bit_or first₁ 0x20 else first₁ in
    if phase then bit_or first₂ 0x04 else first₂

abbrev Unpacks : ℕ → Bool → Bool → Type 0
Unpacks size spin phase =
    (has_bits (packed size spin phase) 0x80 ≡ false)
    × (has_bits (packed size spin phase) 0x40 ≡ true)
    × (bit_and (packed size spin phase) 0x03 + 1 ≡ size)
    × (has_bits (packed size spin phase) 0x20 ≡ spin)
    × (has_bits (packed size spin phase) 0x04 ≡ phase)

unpacks : (size : ℕ) (spin phase : Bool) → 1 ≤ size → size ≤ 4 → Unpacks size spin phase
unpacks zero spin phase low high = absurd (omega (arith, low))
unpacks (suc zero) true true low high = (refl, refl, refl, refl, refl)
unpacks (suc zero) true false low high = (refl, refl, refl, refl, refl)
unpacks (suc zero) false true low high = (refl, refl, refl, refl, refl)
unpacks (suc zero) false false low high = (refl, refl, refl, refl, refl)
unpacks (suc (suc zero)) true true low high = (refl, refl, refl, refl, refl)
unpacks (suc (suc zero)) true false low high = (refl, refl, refl, refl, refl)
unpacks (suc (suc zero)) false true low high = (refl, refl, refl, refl, refl)
unpacks (suc (suc zero)) false false low high = (refl, refl, refl, refl, refl)
unpacks (suc (suc (suc zero))) true true low high = (refl, refl, refl, refl, refl)
unpacks (suc (suc (suc zero))) true false low high = (refl, refl, refl, refl, refl)
unpacks (suc (suc (suc zero))) false true low high = (refl, refl, refl, refl, refl)
unpacks (suc (suc (suc zero))) false false low high = (refl, refl, refl, refl, refl)
unpacks (suc (suc (suc (suc zero)))) true true low high = (refl, refl, refl, refl, refl)
unpacks (suc (suc (suc (suc zero)))) true false low high = (refl, refl, refl, refl, refl)
unpacks (suc (suc (suc (suc zero)))) false true low high = (refl, refl, refl, refl, refl)
unpacks (suc (suc (suc (suc zero)))) false false low high = (refl, refl, refl, refl, refl)
unpacks (suc (suc (suc (suc (suc size))))) spin phase low high = absurd (omega (arith, high))

first_byte_lem :
    (h : ShortHeader)
    → h.fixed_bit ≡ true
    → short_header_first_byte h ≡ packed h.packet_number_length h.spin_bit h.key_phase
unfolding short_header_first_byte
first_byte_lem h fixed = rw (fixed, short_header_first_byte) refl

valid_bounds : (size : ℕ) → not (valid_packet_number_length size) ≡ false → (1 ≤ size) × (size ≤ 4)
unfolding valid_packet_number_length
valid_bounds size valid = ground arith

number_written :
    (n size : ℕ)
    → 1 ≤ size
    → size ≤ 4
    → encode_packet_number n size (replicate 4 0)
      ≡ ok (
        size,
        packet_number_bytes size n ++ drop (length (packet_number_bytes size n)) (replicate 4 0),
      )
unfolding encode_packet_number valid_packet_number_length
number_written n size low high = ground (arith, low, high)

-- What is on the wire.
short_bytes :
    (h : ShortHeader) (bytes : List ℕ)
    → encode_short h ≡ ok bytes
    → (h.fixed_bit ≡ true)
      × (1 ≤ h.packet_number_length)
      × (h.packet_number_length ≤ 4)
      × (bytes
          ≡ short_header_first_byte h
            ∷ (h.destination_connection_id.bytes
                ++ (packet_number_bytes h.packet_number_length h.truncated_packet_number
                    ++ h.protected_payload)))
unfolding encode_short
short_bytes h bytes e =
    let size = h.packet_number_length in
    let (fixed, built) = if-err-eq-ok (not h.fixed_bit) _ e in
    let (valid, built') = if-err-eq-ok (not (valid_packet_number_length size)) _ built in
    let (low, high) = valid_bounds size valid in
    let number = packet_number_bytes size h.truncated_packet_number in
    let taken : take size (number ++ drop (length number) (replicate 4 0)) ≡ number =
      take-packet_number_bytes size h.truncated_packet_number _ in
    (
      ground (arith, fixed),
      low,
      high,
      sym (ok-injective (rw (number_written h.truncated_packet_number size low high) at built'))
          ∙ ap
              (λ (t : List ℕ).
                short_header_first_byte h
                ∷ (h.destination_connection_id.bytes ++ (t ++ h.protected_payload)))
              taken,
    )

-- A short header that encodes is decoded to itself, by a receiver that knows the length of its
-- connection IDs. The first byte is the one that was written, and of the packet number the bytes
-- that were written are left.
pub decode_short_header-encode :
    (h : ShortHeader) (bytes : List ℕ)
    → encode_short h ≡ ok bytes
    → decode_short_header bytes (length h.destination_connection_id.bytes)
      ≡ ok (
          short_packet (record h {
            first_byte = short_header_first_byte h;
            truncated_packet_number = h.truncated_packet_number % 2 ^ (h.packet_number_length * 8);
          }))
unfolding encode_short decode_short_header
decode_short_header-encode h bytes e =
    let size = h.packet_number_length in
    let id = h.destination_connection_id.bytes in
    let number = packet_number_bytes size h.truncated_packet_number in
    let tail : List ℕ = number ++ h.protected_payload in
    let (fixed, low, high, written) = short_bytes h bytes e in
    let first = first_byte_lem h fixed in
    let (long, fix, sized, spin, phase) = unpacks size h.spin_bit h.key_phase low high in
    let fits : ltb (length (id ++ tail)) (length id) ≡ false =
      ground (arith, length-append id tail) in
    let behind : drop size tail ≡ h.protected_payload =
      drop-packet_number_bytes size h.truncated_packet_number h.protected_payload in
    ap (λ (t : List ℕ). decode_short_header t (length id)) written
    ∙ rw
        (
          first,
          long,
          fix,
          fits,
          sized,
          spin,
          phase,
          drop-length-append id tail,
          take-length-append id tail,
          read_truncated_packet_number-bytes h.truncated_packet_number size h.protected_payload low
              high,
          behind,
        )
        (ap ok (ground (arith, fixed, first)))
