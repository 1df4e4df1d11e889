-- ===== src/Varint/RoundTrip.antt =====
-- What `encode_varint` writes, `decode_varint` reads; and what each does on any input.
use flow_q.Prelude.{ℕ, ◌+◌, ◌*◌, ◌/◌, ◌%◌, ◌^◌, ◌≤◌, ◌<◌, bit_and, bit_or, arith}
use flow_q.Prelude.{◌≡◌, ◌∙◌, inl, inr, IsByte, All, All-take, le-cases, ◌&&◌}
use flow_q.Prelude.{
  List, [], ◌∷◌, ◌++◌, length, length-append, length-drop, length-take, drop, take, get_or,
}
use flow_q.Prelude.{ltb, leb, ◌==◌, if◌then◌else◌}
use flow_q.Prelude.{ok, err, codec_error}
use flow_q.Prelude.Bits.{bit_or-shifted}
use flow_q.Varint.{max_varint, encoded_size, encode_varint, decode_varint}
use flow_q.Varint.{shift_in_all, too_small, truncated}
use flow_q.Varint.Bytes.{big_endian, varint_length, varint_bytes, encode_varint_writes, mask_six}
use flow_q.Varint.Bytes.{shift_in_all-big_endian, shift_in_all_bound}

-- The first byte of a long form: its tag, and the digits under the tag.
first_byte :
    (tag d : ℕ) → d < 64 → ((64 * tag + d) / 2 ^ 6 ≡ tag) × (bit_and (64 * tag + d) 0x3f ≡ d)
first_byte tag d h = (omega arith, mask_six (64 * tag + d) ∙ omega arith)

decode_one : (v : ℕ) (rest : List ℕ) → v < 64 → decode_varint (v ∷ rest) ≡ ok (v, 1)
unfolding decode_varint
decode_one v rest h = let tag : v / 2 ^ 6 ≡ 0 = omega arith in rw (tag, mask_six v) (ground arith)

decode_two :
    (v : ℕ) (rest : List ℕ)
    → v < 16384
    → decode_varint ((0x40 + v / 256) ∷ (v / 1 % 256) ∷ rest) ≡ ok (v, 2)
unfolding decode_varint
decode_two v rest h =
    let (tag, digits) = first_byte 1 (v / 256) (omega arith) in
    rw (tag, digits, bit_or-shifted 8 (v / 256) (v / 1 % 256) (omega arith)) (ground arith)

decode_four :
    (v : ℕ) (rest : List ℕ)
    → v < 1073741824
    → decode_varint ((0x80 + v / 256 ^ 3) ∷ (big_endian 3 v ++ rest)) ≡ ok (v, 4)
unfolding decode_varint
decode_four v rest h =
    let (tag, digits) = first_byte 2 (v / 256 ^ 3) (omega arith) in
    rw (tag, digits, shift_in_all-big_endian 3 v (omega arith)) (ground arith)

decode_eight :
    (v : ℕ) (rest : List ℕ)
    → v ≤ max_varint
    → decode_varint ((0xc0 + v / 256 ^ 7) ∷ (big_endian 7 v ++ rest)) ≡ ok (v, 8)
unfolding decode_varint
decode_eight v rest h =
    let (tag, digits) = first_byte 3 (v / 256 ^ 7) (omega arith) in
    rw (tag, digits, shift_in_all-big_endian 7 v (omega arith)) (ground arith)

-- Reading at the front of any bytes gives the integer and its length.
pub decode_varint-bytes :
    (v : ℕ) (rest : List ℕ)
    → v ≤ max_varint
    → decode_varint (varint_bytes v ++ rest) ≡ ok (v, varint_length v)
unfolding varint_bytes
decode_varint-bytes v rest h =
    ground (arith, decode_one v rest, decode_two v rest, decode_four v rest, decode_eight v rest)

-- Every branch of `encode_varint`: the two errors, and what is written.
pub encode_varint_branches :
    (v : ℕ) (output : List ℕ)
    → (max_varint < v
        → encode_varint v output ≡ err (codec_error "QUIC varint value exceeds 2^62 - 1"))
      × (v ≤ max_varint → length output < varint_length v → encode_varint v output ≡ err too_small)
      × (v ≤ max_varint
          → varint_length v ≤ length output
          → encode_varint v output
            ≡ ok (varint_length v, varint_bytes v ++ drop (varint_length v) output))
unfolding encode_varint encoded_size
encode_varint_branches v output =
    (λ h. ground arith, λ h short. ground arith, encode_varint_writes v output)

-- `encoded_size` is the number of bytes that `encode_varint` writes, and fails on the same integers.
pub encoded_size_agrees :
    (v : ℕ)
    → (v ≤ max_varint → encoded_size v ≡ ok (varint_length v))
      × (max_varint < v → encoded_size v ≡ err (codec_error "QUIC varint value exceeds 2^62 - 1"))
unfolding encoded_size
encoded_size_agrees v = (λ h. ground arith, λ h. ground arith)

pub length-varint_bytes : (v : ℕ) → length (varint_bytes v) ≡ varint_length v
unfolding varint_bytes
length-varint_bytes v = ground arith

pub encode_varint-eq-ok :
    (v : ℕ) (output : List ℕ) {n : ℕ} {written : List ℕ}
    → encode_varint v output ≡ ok (n, written)
    → (v ≤ max_varint)
      × (n ≡ varint_length v)
      × (n ≤ length output)
      × (written ≡ varint_bytes v ++ drop n output)
encode_varint-eq-ok v output e = elim (le-cases v max_varint) [
  | inl small ↦ elim (le-cases (varint_length v) (length output)) [
    | inl fits ↦ ground (arith, encode_varint_writes v output small fits)
    | inr short ↦ absurd (cc ((encode_varint_branches v output).1 small short))
  ]
  | inr large ↦ absurd (cc ((encode_varint_branches v output).0 large))
]

-- Whatever `encode_varint` writes decodes to the same integer and to the number of bytes written;
-- `encoded_size` gives that number, and the span keeps its length.
pub decode-encode :
    (v : ℕ) (output : List ℕ) (n : ℕ) (written : List ℕ)
    → encode_varint v output ≡ ok (n, written)
    → (decode_varint written ≡ ok (v, n))
      × (encoded_size v ≡ ok n)
      × (length written ≡ length output)
decode-encode v output n written e =
    let (small, size, fits, bytes) = encode_varint-eq-ok v output e in
    (
      rw (bytes, size) (decode_varint-bytes v (drop (varint_length v) output) small),
      rw size ((encoded_size_agrees v).0 small),
      rw bytes (
          omega (
            arith,
            size,
            fits,
            length-append (varint_bytes v) (drop n output),
            length-varint_bytes v,
            length-drop n output,
          )),
    )

-- The length that the first byte announces.
abbrev pub announced_length : ℕ → ℕ
announced_length first =
    if ltb first 64 then 1 else if ltb first 128 then 2 else if ltb first 192 then 4 else 8

-- The integer in a complete input.
abbrev read_value : ℕ → List ℕ → ℕ
read_value first rest =
    if ltb first 64
    then bit_and first 0x3f
    else if ltb first 128
    then bit_or (bit_and first 0x3f * 2 ^ 8) (get_or rest 0 0)
    else if ltb first 192
    then shift_in_all (bit_and first 0x3f) (take 3 rest)
    else shift_in_all (bit_and first 0x3f) (take 7 rest)

two_byte_bound :
    (x : ℕ) (rest : List ℕ)
    → x < 64
    → All IsByte rest
    → bit_or (x * 2 ^ 8) (get_or rest 0 0) ≤ max_varint
two_byte_bound x [] hx all = rw (bit_or-shifted 8 x 0 (omega arith)) (omega arith)
two_byte_bound x (b ∷ bs) hx all = rw (bit_or-shifted 8 x b all.0) (omega (arith, all.0))

long_bound :
    (n x : ℕ) (rest : List ℕ)
    → n ≤ 7
    → x < 64
    → All IsByte rest
    → shift_in_all x (take n rest) ≤ max_varint
long_bound n x rest hn hx all =
    shift_in_all_bound 0 x (take n rest) (omega arith) (omega (arith, length-take n rest))
      (All-take IsByte n rest all)

read_value_bound :
    (first : ℕ) (rest : List ℕ) → All IsByte rest → read_value first rest ≤ max_varint
read_value_bound first rest all =
    let small : bit_and first 0x3f < 64 = rw (mask_six first) (omega arith) in
    ground (
      arith,
      two_byte_bound (bit_and first 0x3f) rest,
      long_bound 3 (bit_and first 0x3f) rest,
      long_bound 7 (bit_and first 0x3f) rest,
    )

-- The tests on the two tag bits, as tests on the byte.
tag_bits :
    (first : ℕ)
    → first < 256
    → ((first / 2 ^ 6 == 0) ≡ ltb first 64)
      × ((first / 2 ^ 6 == 1) ≡ (leb 64 first && ltb first 128))
      × ((first / 2 ^ 6 == 2) ≡ (leb 128 first && ltb first 192))
tag_bits first h = (ground arith, ground arith, ground arith)

-- On bytes, `decode_varint` fails as truncated if the input is shorter than its first byte
-- announces; otherwise it reads the announced length and an integer of at most 2^62 - 1.
pub decode_varint_total :
    (first : ℕ) (rest : List ℕ)
    → All IsByte (first ∷ rest)
    → (length (first ∷ rest) < announced_length first
        → decode_varint (first ∷ rest) ≡ err truncated)
      × (announced_length first ≤ length (first ∷ rest)
          → (v : ℕ) × (decode_varint (first ∷ rest) ≡ ok (v, announced_length first))
            × (v ≤ max_varint))
unfolding decode_varint
decode_varint_total first rest all =
    let (zero_tag, one_tag, two_tag) = tag_bits first all.0 in
    rw (zero_tag, one_tag, two_tag)
      (
        λ h. ground arith,
        λ h. (
          read_value first rest,
          ground (arith, read_value_bound first rest all.1),
          read_value_bound first rest all.1,
        ),
      )
