-- ===== src/Prelude/Bits.antt =====
-- `x & (2^k - 1)` and `(x << k) | y` as arithmetic, for every x.
use Prim.Native.Nat.{ℕ, zero, suc, ◌+◌, ◌-◌, ◌*◌, ◌/◌, ◌%◌, ◌^◌, ◌≤◌, ◌<◌, min, max}
use Prim.Native.Nat.{bit_and, bit_or, digits, bit_and-bitwise, bit_or-bitwise}
use mathlib.Core.Path.{◌≡◌, refl, ap, sym, ◌∙◌}
use native.Mathlib.Nat.{pow-suc, one-le-pow, div-one, div-add-mod, div-div-eq-div-mul, mul_comm}
use native.Mathlib.Omega.{arith}

-- The recursion on digits takes fuel, and any amount of at least its first argument will do.
fuel_free :
    (rest : ℕ → ℕ) (digit : ℕ → ℕ → ℕ) (a b : ℕ) {n m : ℕ}
    → a ≤ n
    → a ≤ m
    → digits rest digit n a b ≡ digits rest digit m a b
fuel_free rest digit zero b {n = zero} {m = zero} p q = refl
fuel_free rest digit zero b {n = zero} {m = suc m} p q = refl
fuel_free rest digit zero b {n = suc n} {m = zero} p q = refl
fuel_free rest digit zero b {n = suc n} {m = suc m} p q = refl
fuel_free rest digit (suc a) b {n = zero} p q = elim p [ ]
fuel_free rest digit (suc a) b {n = suc n} {m = zero} p q = elim q [ ]
fuel_free rest digit (suc a) b {n = suc n} {m = suc m} p q =
    ap (λ (t : ℕ). t * 2 + digit (suc a % 2) (b % 2))
      (fuel_free rest digit (suc a / 2) (b / 2) {n = n} {m = m} (omega arith) (omega arith))

and_low : (a b : ℕ) → bit_and a b ≡ bit_and (a / 2) (b / 2) * 2 + min (a % 2) (b % 2)
and_low zero b = omega (arith, bit_and-bitwise zero b, bit_and-bitwise zero (b / 2))
and_low (suc a) b = omega (
  arith,
  bit_and-bitwise (suc a) b,
  bit_and-bitwise (suc a / 2) (b / 2),
  fuel_free (λ y. 0) min (suc a / 2) (b / 2) {n = suc a / 2} {m = a} (omega arith) (omega arith),
)

or_low : (a b : ℕ) → bit_or a b ≡ bit_or (a / 2) (b / 2) * 2 + max (a % 2) (b % 2)
or_low zero b = omega (arith, bit_or-bitwise zero b, bit_or-bitwise zero (b / 2))
or_low (suc a) b = omega (
  arith,
  bit_or-bitwise (suc a) b,
  bit_or-bitwise (suc a / 2) (b / 2),
  fuel_free (λ y. y) max (suc a / 2) (b / 2) {n = suc a / 2} {m = a} (omega arith) (omega arith),
)

-- Both laws go down the digits of the mask: below `2 ^ k` nothing is left after k steps.
and_nothing : (bound a : ℕ) → a < 2 ^ bound → bit_and a 0 ≡ 0
and_nothing zero zero h = refl
and_nothing zero (suc a) h = absurd (omega arith)
and_nothing (suc k) a h =
    omega (arith, and_low a 0, pow-suc 2 k, and_nothing k (a / 2) (omega (arith, pow-suc 2 k)))

lt-two_pow : (a : ℕ) → a < 2 ^ a
lt-two_pow zero = omega arith
lt-two_pow (suc a) = omega (arith, lt-two_pow a, pow-suc 2 a)

or_nothing : (bound a : ℕ) → a < 2 ^ bound → bit_or a 0 ≡ a
or_nothing zero zero h = refl
or_nothing zero (suc a) h = absurd (omega arith)
or_nothing (suc k) a h =
    omega (arith, or_low a 0, pow-suc 2 k, or_nothing k (a / 2) (omega (arith, pow-suc 2 k)))

half_mod : (k x : ℕ) → x % 2 ^ suc k ≡ x / 2 % 2 ^ k * 2 + x % 2
half_mod k x = rw (pow-suc 2 k) (
    omega (
      arith,
      div-add-mod x (2 ^ k * 2),
      div-add-mod (x / 2) (2 ^ k),
      ap (λ (t : ℕ). 2 ^ k * t) (div-div-eq-div-mul x 2 (2 ^ k)),
      ap (λ (t : ℕ). 2 ^ k * (x / t)) (mul_comm 2 (2 ^ k)),
    ))

half_ones : (k : ℕ) → ((2 ^ suc k - 1) / 2 ≡ 2 ^ k - 1) × ((2 ^ suc k - 1) % 2 ≡ 1)
half_ones k = omega (arith, pow-suc 2 k, one-le-pow k 2)

half_shifted : (k x : ℕ) → (x * 2 ^ suc k / 2 ≡ x * 2 ^ k) × (x * 2 ^ suc k % 2 ≡ 0)
half_shifted k x =
    let e : x * 2 ^ suc k ≡ x * 2 ^ k * 2 = omega (arith, ap (λ (t : ℕ). x * t) (pow-suc 2 k)) in
    rw e (omega arith)

-- The low `k` bits of `x`.
pub bit_and-ones : (k x : ℕ) → bit_and x (2 ^ k - 1) ≡ x % 2 ^ k
bit_and-ones zero x = and_nothing x x (lt-two_pow x) ∙ omega arith
bit_and-ones (suc k) x =
    and_low x (2 ^ suc k - 1)
    ∙ rw ((half_ones k).0, (half_ones k).1, bit_and-ones k (x / 2)) (omega (arith, half_mod k x))

-- `(x << k) | y`, for `y` of `k` bits.
pub bit_or-shifted : (k x y : ℕ) → y < 2 ^ k → bit_or (x * 2 ^ k) y ≡ x * 2 ^ k + y
bit_or-shifted zero x zero h = or_nothing (x * 1) (x * 1) (lt-two_pow _) ∙ omega arith
bit_or-shifted zero x (suc y) h = absurd (omega arith)
bit_or-shifted (suc k) x y h =
    or_low (x * 2 ^ suc k) y
    ∙ rw
        (
          (half_shifted k x).0,
          (half_shifted k x).1,
          bit_or-shifted k x (y / 2) (omega (arith, pow-suc 2 k)),
        )
        (omega (arith, half_shifted k x))

half_div : (k x : ℕ) → x / 2 ^ suc k ≡ x / 2 / 2 ^ k
half_div k x =
    ap (λ (t : ℕ). x / t) (pow-suc 2 k ∙ mul_comm (2 ^ k) 2) ∙ sym (div-div-eq-div-mul x 2 (2 ^ k))

-- The bits of `x` from `k` on, by a mask of `j` ones above `k` zeros.
pub bit_and-high_ones : (k j x : ℕ) → bit_and x ((2 ^ j - 1) * 2 ^ k) ≡ x / 2 ^ k % 2 ^ j * 2 ^ k
bit_and-high_ones zero j x =
    ap (λ (t : ℕ). bit_and x t) (omega arith)
    ∙ bit_and-ones j x
    ∙ omega (arith, ap (λ (t : ℕ). t % 2 ^ j) (div-one x))
bit_and-high_ones (suc k) j x =
    let (none, even) = half_shifted k (2 ^ j - 1) in
    let more : ℕ = x / 2 / 2 ^ k % 2 ^ j in
    and_low x ((2 ^ j - 1) * 2 ^ suc k)
    ∙ rw (none, even, bit_and-high_ones k j (x / 2))
        (omega (
          arith,
          ap (λ (t : ℕ). t % 2 ^ j * 2 ^ suc k) (half_div k x),
          ap (λ (t : ℕ). more * t) (pow-suc 2 k),
        ))
