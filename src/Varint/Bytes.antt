-- ===== src/Varint/Bytes.antt =====
-- The bytes of an encoded integer in plain arithmetic, and what the decoder makes of a big-endian
-- run of bytes.
use flow_q.Prelude.{ℕ, zero, suc, ◌+◌, ◌*◌, ◌/◌, ◌%◌, ◌^◌, ◌≤◌, ◌<◌, bit_and, bit_or, arith}
use flow_q.Prelude.{◌≡◌, ◌∙◌, sym, ap, IsByte, All}
use flow_q.Prelude.{List, [], ◌∷◌, ◌++◌, length, drop}
use flow_q.Prelude.{ltb, if◌then◌else◌}
use flow_q.Prelude.{ok}
use flow_q.Prelude.Bits.{bit_and-ones, bit_or-shifted}
use native.Mathlib.Nat.{pow-suc, div-div-eq-div-mul, div-le_self, pow-le-pow_right}
use flow_q.Varint.{max_varint, encoded_size, encode_varint}
use flow_q.Varint.{shift_in, shift_in_all, two_bytes, four_bytes, eight_bytes}

-- Big-endian bytes: `n` of them.
abbrev pub big_endian : ℕ → ℕ → List ℕ
big_endian zero v = []
big_endian (suc n) v = (v / 256 ^ n % 256) ∷ big_endian n v

tag_one : (x : ℕ) → x < 64 → bit_or 0x40 (bit_and x 0x3f) ≡ 64 + x
tag_one x h = rw (bit_and-ones 6 x) (bit_or-shifted 6 1 (x % 2 ^ 6) (omega arith) ∙ omega arith)

tag_two : (x : ℕ) → x < 64 → bit_or 0x80 (bit_and x 0x3f) ≡ 128 + x
tag_two x h = rw (bit_and-ones 6 x) (bit_or-shifted 6 2 (x % 2 ^ 6) (omega arith) ∙ omega arith)

tag_three : (x : ℕ) → x < 64 → bit_or 0xc0 (bit_and x 0x3f) ≡ 192 + x
tag_three x h = rw (bit_and-ones 6 x) (bit_or-shifted 6 3 (x % 2 ^ 6) (omega arith) ∙ omega arith)

pub mask_six : (x : ℕ) → bit_and x 0x3f ≡ x % 64
mask_six x = bit_and-ones 6 x

pub mask_eight : (x : ℕ) → bit_and x 0xff ≡ x % 256
mask_eight x = bit_and-ones 8 x

-- The length of the encoding, and the encoding: two tag bits above the value.
abbrev pub varint_length : ℕ → ℕ
varint_length v =
    if ltb v 64 then 1 else if ltb v 16384 then 2 else if ltb v 1073741824 then 4 else 8

unfoldable pub varint_bytes : ℕ → List ℕ
varint_bytes v =
    if ltb v 64
    then v ∷ []
    else if ltb v 16384
    then (0x40 + v / 256 ^ 1) ∷ big_endian 1 v
    else if ltb v 1073741824
    then (0x80 + v / 256 ^ 3) ∷ big_endian 3 v
    else (0xc0 + v / 256 ^ 7) ∷ big_endian 7 v

two_bytes_lem : (v : ℕ) → v < 16384 → two_bytes v ≡ (0x40 + v / 256 ^ 1) ∷ big_endian 1 v
unfolding two_bytes
two_bytes_lem v h = simp (tag_one (v / 2 ^ 8) (omega arith), mask_eight) (ground arith)

four_bytes_lem : (v : ℕ) → v < 1073741824 → four_bytes v ≡ (0x80 + v / 256 ^ 3) ∷ big_endian 3 v
unfolding four_bytes
four_bytes_lem v h = simp (tag_two (v / 2 ^ 24) (omega arith), mask_eight) (ground arith)

eight_bytes_lem : (v : ℕ) → v ≤ max_varint → eight_bytes v ≡ (0xc0 + v / 256 ^ 7) ∷ big_endian 7 v
unfolding eight_bytes
eight_bytes_lem v h = simp (tag_three (v / 2 ^ 56) (omega arith), mask_eight) (ground arith)

-- On an encodable value and a span that is long enough, the encoding is written over the front.
pub encode_varint_writes :
    (v : ℕ) (output : List ℕ)
    → v ≤ max_varint
    → varint_length v ≤ length output
    → encode_varint v output ≡ ok (varint_length v, varint_bytes v ++ drop (varint_length v) output)
unfolding encode_varint encoded_size varint_bytes
encode_varint_writes v output h fits =
    ground (arith, two_bytes_lem v, four_bytes_lem v, eight_bytes_lem v)

pub shift_in_lem : (x b : ℕ) → x < 2 ^ 56 → b < 256 → shift_in x b ≡ x * 256 + b
unfolding shift_in
shift_in_lem x b hx hb =
    let small : x * 2 ^ 8 % 2 ^ 64 ≡ x * 2 ^ 8 = omega arith in rw small (bit_or-shifted 8 x b hb)

-- Bytes read after the leading digits of `v` give `v` back.
pub shift_in_all-big_endian :
    (n v : ℕ) → v < 2 ^ 62 → shift_in_all (v / 256 ^ n) (big_endian n v) ≡ v
unfolding shift_in_all
shift_in_all-big_endian zero v h = omega arith
shift_in_all-big_endian (suc n) v h =
    let next : v / 256 ^ suc n ≡ v / 256 ^ n / 256 =
      ap (λ (t : ℕ). v / t) (pow-suc 256 n) ∙ sym (div-div-eq-div-mul v (256 ^ n) 256) in
    let below : v / 256 ^ n ≤ v = div-le_self v (256 ^ n) in
    let step : shift_in (v / 256 ^ suc n) (v / 256 ^ n % 256) ≡ v / 256 ^ n = rw next (
      shift_in_lem (v / 256 ^ n / 256) (v / 256 ^ n % 256) (omega arith) (omega arith)
      ∙ omega arith) in
    ap (λ (t : ℕ). shift_in_all t (big_endian n v)) step ∙ shift_in_all-big_endian n v h

-- Any run of at most seven bytes behind six bits stays below 2^62.
pub shift_in_all_bound :
    (j x : ℕ) (bs : List ℕ)
    → x < 64 * 256 ^ j
    → j + length bs ≤ 7
    → All IsByte bs
    → shift_in_all x bs ≤ max_varint
unfolding shift_in_all
shift_in_all_bound j x [] hx fits all =
    omega (arith, pow-le-pow_right {n = 256} (omega arith) {i = j} {j = 7} (omega arith))
shift_in_all_bound j x (b ∷ bs) hx fits all =
    let mono : 256 ^ j ≤ 256 ^ 6 =
      pow-le-pow_right {n = 256} (omega arith) {i = j} {j = 6} (omega arith) in
    rw (shift_in_lem x b (omega arith) all.0) (
      shift_in_all_bound (suc j) (x * 256 + b) bs (omega (arith, pow-suc 256 j)) (omega arith)
        all.1)
