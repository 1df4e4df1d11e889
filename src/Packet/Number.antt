-- ===== src/Packet/Number.antt =====
-- include/flowq/quic/packet_header.hpp: the length, the truncation and the recovery of packet
-- numbers. The result structs are a `Result`; the encoder also returns its span as it is afterwards.
pub mod Recover
pub mod Exchange
mod Examples
use flow_q.Prelude.{
  ℕ, zero, suc, ◌+◌, ◌-◌, ◌*◌, ◌/◌, ◌%◌, ◌^◌, ◌<◌, ◌≤◌, Bool, ◌&&◌, not, bit_and, bit_or,
}
use flow_q.Prelude.{
  List, [], ◌∷◌, ◌++◌, length, take, drop, ltb, leb, if◌then◌else◌, add64, sub64, mul64, u64_max,
}
use flow_q.Prelude.{Result, ok, err, Error, protocol_error, String}
use flow_q.Varint.{max_varint, to_byte, shift_in_all, write_front}

abbrev pub packet_number_error : String → Error
packet_number_error message = record { error_code = protocol_error; message = message }

unfoldable pub valid_packet_number_length : ℕ → Bool
valid_packet_number_length size = leb 1 size && leb size 4

-- The loop of `select_packet_number_length`, with `rounds` lengths left from `size` on.
select_from : ℕ → ℕ → ℕ → Result ℕ
select_from zero size gap =
    err (packet_number_error "packet number gap exceeds 4-byte encoding window")
select_from (suc rounds) size gap =
    let longer = select_from rounds (size + 1) gap in
    if ltb (mul64 gap 2) (2 ^ (size * 8)) then ok size else longer

unfoldable pub select_packet_number_length : ℕ → ℕ → Result ℕ
unfolding select_from
select_packet_number_length packet_number largest_acknowledged =
    if leb packet_number largest_acknowledged
    then err (packet_number_error "packet number must be greater than largest acknowledged")
    else select_from 4 1 (packet_number - largest_acknowledged)

-- The bytes that the loop writes, with `rounds` of them left.
unfoldable pub packet_number_bytes : ℕ → ℕ → List ℕ
packet_number_bytes zero packet_number = []
packet_number_bytes (suc rounds) packet_number =
    to_byte (bit_and (packet_number / 2 ^ (rounds * 8)) 0xff)
    ∷ packet_number_bytes rounds packet_number

unfoldable pub encode_packet_number : ℕ → ℕ → List ℕ → Result (ℕ × List ℕ)
encode_packet_number packet_number size output =
    if not (valid_packet_number_length size)
    then err (packet_number_error "packet number length must be 1 to 4 bytes")
    else if ltb (length output) size
    then err (packet_number_error "destination buffer too small for packet number")
    else ok (size, write_front (packet_number_bytes size packet_number) output)

-- The bits of the expected number above the window, and the truncated number below.
unfoldable pub candidate : ℕ → ℕ → ℕ → ℕ
candidate window expected truncated = bit_or (bit_and expected (u64_max - (window - 1))) truncated

-- The candidate, one window up or one window down.
unfoldable pub recover : ℕ → ℕ → ℕ → ℕ
recover window expected near =
    let half = window / 2 in
    if leb (add64 near half) expected && ltb near (max_varint - window)
    then near + window
    else if ltb (add64 expected half) near && leb window near
    then near - window
    else near

unfoldable pub decode_packet_number : ℕ → ℕ → ℕ → Result ℕ
decode_packet_number truncated size largest_received =
    let window = 2 ^ (size * 8) in
    let expected = add64 largest_received 1 in
    if not (valid_packet_number_length size)
    then err (packet_number_error "packet number length must be 1 to 4 bytes")
    else if leb window truncated
    then err (packet_number_error "truncated packet number does not fit selected length")
    else ok (recover window expected (candidate window expected truncated))

-- `read_truncated_packet_number`, from the input behind its offset.
unfoldable pub read_truncated_packet_number : List ℕ → ℕ → Result ℕ
read_truncated_packet_number input size =
    if not (valid_packet_number_length size)
    then err (packet_number_error "packet number length must be 1 to 4 bytes")
    else if ltb (length input) size
    then err (packet_number_error "truncated short-header packet number")
    else ok (shift_in_all 0 (take size input))
