-- ===== src/Packet/Number/Recover.antt =====
-- `decode_packet_number` finds the packet number in the window around the expected one.
use flow_q.Prelude.{
  ℕ, zero, suc, ◌+◌, ◌-◌, ◌*◌, ◌/◌, ◌%◌, ◌^◌, ◌<◌, ◌≤◌, ◌≡◌, ◌∙◌, ap, refl, arith, bit_and, bit_or,
  u64_max, ok,
}
use flow_q.Prelude.Bits.{bit_and-high_ones, bit_or-shifted}
use flow_q.Varint.{max_varint}
use flow_q.Packet.Number.{candidate, recover, decode_packet_number, valid_packet_number_length}
use native.Mathlib.Nat.{mod-eq_of_lt}

candidate_lem :
    (k j expected truncated : ℕ)
    → u64_max - (2 ^ k - 1) ≡ (2 ^ j - 1) * 2 ^ k
    → expected / 2 ^ k < 2 ^ j
    → truncated < 2 ^ k
    → candidate (2 ^ k) expected truncated ≡ expected / 2 ^ k * 2 ^ k + truncated
unfolding candidate
candidate_lem k j expected truncated mask small fits =
    ap (λ (t : ℕ). bit_or (bit_and expected t) truncated) mask
    ∙ ap (λ (t : ℕ). bit_or t truncated)
        (bit_and-high_ones k j expected ∙ ap (λ (t : ℕ). t * 2 ^ k) (mod-eq_of_lt small))
    ∙ bit_or-shifted k (expected / 2 ^ k) truncated fits

-- At each of the four windows, near `expected`.
recover_one :
    (n expected : ℕ)
    → n ≤ max_varint
    → expected < n + 2 ^ 7
    → n ≤ expected + 2 ^ 7
    → recover (2 ^ 8) expected (expected / 2 ^ 8 * 2 ^ 8 + n % 2 ^ 8) ≡ n
unfolding recover
recover_one n expected small low high = ground arith

recover_two :
    (n expected : ℕ)
    → n ≤ max_varint
    → expected < n + 2 ^ 15
    → n ≤ expected + 2 ^ 15
    → recover (2 ^ 16) expected (expected / 2 ^ 16 * 2 ^ 16 + n % 2 ^ 16) ≡ n
unfolding recover
recover_two n expected small low high = ground arith

recover_three :
    (n expected : ℕ)
    → n ≤ max_varint
    → expected < n + 2 ^ 23
    → n ≤ expected + 2 ^ 23
    → recover (2 ^ 24) expected (expected / 2 ^ 24 * 2 ^ 24 + n % 2 ^ 24) ≡ n
unfolding recover
recover_three n expected small low high = ground arith

recover_four :
    (n expected : ℕ)
    → n ≤ max_varint
    → expected < n + 2 ^ 31
    → n ≤ expected + 2 ^ 31
    → recover (2 ^ 32) expected (expected / 2 ^ 32 * 2 ^ 32 + n % 2 ^ 32) ≡ n
unfolding recover
recover_four n expected small low high = ground arith

-- The expected number is within half a window of `n`: less than that above it, at most that below.
abbrev pub IsNear : ℕ → ℕ → ℕ → Type 0
IsNear size n expected = (expected < n + 2 ^ (size * 8) / 2) × (n ≤ expected + 2 ^ (size * 8) / 2)

-- A number truncated to its lowest 1 to 4 bytes is recovered exactly, if it is within half a window
-- of the number that follows the largest received one. Numbers are at most 2^62 - 1.
pub decode_packet_number-truncated :
    (n size largest_received : ℕ)
    → n ≤ max_varint
    → 1 ≤ size
    → size ≤ 4
    → IsNear size n (largest_received + 1)
    → decode_packet_number (n % 2 ^ (size * 8)) size largest_received ≡ ok n
unfolding decode_packet_number valid_packet_number_length
decode_packet_number-truncated n zero r small low high near = absurd (omega (arith, low))
decode_packet_number-truncated n (suc zero) r small low high near = ground (
  arith,
  candidate_lem 8 56 (r + 1) (n % 2 ^ 8) refl (omega arith) (omega arith),
  recover_one n (r + 1) small (omega arith) (omega arith),
)
decode_packet_number-truncated n (suc (suc zero)) r small low high near = ground (
  arith,
  candidate_lem 16 48 (r + 1) (n % 2 ^ 16) refl (omega arith) (omega arith),
  recover_two n (r + 1) small (omega arith) (omega arith),
)
decode_packet_number-truncated n (suc (suc (suc zero))) r small low high near = ground (
  arith,
  candidate_lem 24 40 (r + 1) (n % 2 ^ 24) refl (omega arith) (omega arith),
  recover_three n (r + 1) small (omega arith) (omega arith),
)
decode_packet_number-truncated n (suc (suc (suc (suc zero)))) r small low high near = ground (
  arith,
  candidate_lem 32 32 (r + 1) (n % 2 ^ 32) refl (omega arith) (omega arith),
  recover_four n (r + 1) small (omega arith) (omega arith),
)
decode_packet_number-truncated n (suc (suc (suc (suc (suc size))))) r small low high near =
    absurd (omega (arith, high))
