-- ===== src/Varint.antt =====
-- include/flowq/quic/varint.hpp: the variable-length integers of QUIC. A span of bytes is a list of
-- numbers; a function that writes through its span returns the span as it is afterwards.
pub mod Bytes
pub mod RoundTrip
mod Examples
use flow_q.Prelude.{ℕ, zero, suc, ◌+◌, ◌-◌, ◌*◌, ◌/◌, ◌%◌, ◌^◌, ◌≤◌, ◌<◌, bit_and, bit_or, arith}
use flow_q.Prelude.{List, [], ◌∷◌, ◌++◌, length, drop, take, get_or, ltb, leb, ◌==◌, if◌then◌else◌}
use flow_q.Prelude.{Error, Result, ok, err, ◌>>=◌, codec_error}

abbrev pub max_varint : ℕ
max_varint = 4611686018427387903

-- `static_cast<std::byte>` of an unsigned integer.
abbrev pub to_byte : ℕ → ℕ
to_byte v = v % 256

unfoldable pub encoded_size : ℕ → Result ℕ
encoded_size value =
    if ltb max_varint value
    then err (codec_error "QUIC varint value exceeds 2^62 - 1")
    else if leb value 63
    then ok 1
    else if leb value 16383
    then ok 2
    else if leb value 1073741823
    then ok 4
    else ok 8

abbrev too_small : Error
too_small = codec_error "destination buffer too small for QUIC varint"

abbrev truncated : Error
truncated = codec_error "truncated QUIC varint"

-- The bytes that the `switch` writes for each size.
two_bytes : ℕ → List ℕ
two_bytes value =
    to_byte (bit_or 0x40 (bit_and (value / 2 ^ 8) 0x3f)) ∷ to_byte (bit_and value 0xff) ∷ []

four_bytes : ℕ → List ℕ
four_bytes value =
    to_byte (bit_or 0x80 (bit_and (value / 2 ^ 24) 0x3f))
    ∷ to_byte (bit_and (value / 2 ^ 16) 0xff)
    ∷ to_byte (bit_and (value / 2 ^ 8) 0xff)
    ∷ to_byte (bit_and value 0xff)
    ∷ []

eight_bytes : ℕ → List ℕ
eight_bytes value =
    to_byte (bit_or 0xc0 (bit_and (value / 2 ^ 56) 0x3f))
    ∷ to_byte (bit_and (value / 2 ^ 48) 0xff)
    ∷ to_byte (bit_and (value / 2 ^ 40) 0xff)
    ∷ to_byte (bit_and (value / 2 ^ 32) 0xff)
    ∷ to_byte (bit_and (value / 2 ^ 24) 0xff)
    ∷ to_byte (bit_and (value / 2 ^ 16) 0xff)
    ∷ to_byte (bit_and (value / 2 ^ 8) 0xff)
    ∷ to_byte (bit_and value 0xff)
    ∷ []

-- `output[0] = …; output[1] = …;` and so on.
abbrev pub write_front : List ℕ → List ℕ → List ℕ
write_front bytes output = bytes ++ drop (length bytes) output

-- `bytes_written` and the span afterwards.
unfoldable pub encode_varint : ℕ → List ℕ → Result (ℕ × List ℕ)
unfolding two_bytes four_bytes eight_bytes encoded_size
encode_varint value output =
    if ltb value 64
    then (if ltb (length output) 1
        then err too_small
        else ok (1, write_front (to_byte value ∷ []) output))
    else if ltb value 16384
    then (if ltb (length output) 2
        then err too_small
        else ok (2, write_front (two_bytes value) output))
    else encoded_size value >>= λ size.
        if ltb (length output) size
        then err too_small
        else if size == 4
        then ok (size, write_front (four_bytes value) output)
        else ok (size, write_front (eight_bytes value) output)

-- `value = (value << 8U) | byte` over the bytes of the loop.
unfoldable pub shift_in : ℕ → ℕ → ℕ
shift_in value byte = bit_or (value * 2 ^ 8 % 2 ^ 64) byte

unfoldable pub shift_in_all : ℕ → List ℕ → ℕ
shift_in_all value [] = value
shift_in_all value (b ∷ bs) = shift_in_all (shift_in value b) bs

-- The value and `bytes_read`.
unfoldable pub decode_varint : List ℕ → Result (ℕ × ℕ)
unfolding shift_in_all shift_in
decode_varint [] = err (codec_error "empty QUIC varint input")
decode_varint (first ∷ rest) =
    let prefix = first / 2 ^ 6 in
    if prefix == 0
    then ok (bit_and first 0x3f, 1)
    else if prefix == 1
    then (if ltb (length (first ∷ rest)) 2
        then err truncated
        else ok (bit_or (bit_and first 0x3f * 2 ^ 8) (get_or (first ∷ rest) 1 0), 2))
    else (let size : ℕ = if prefix == 2 then 4 else 8 in
        let value = shift_in_all (bit_and first 0x3f) (take (size - 1) rest) in
        if ltb (length (first ∷ rest)) size
        then err truncated
        else if ltb max_varint value
        then err (codec_error "decoded QUIC varint exceeds 2^62 - 1")
        else ok (value, size))
