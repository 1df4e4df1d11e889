-- ===== src/ZeroRtt/Bitmap.antt =====
-- The bits of the bitmap after a store and after the loop that clears them.
use flow_q.Prelude.{
  ℕ, zero, suc, ◌+◌, ◌-◌, ◌/◌, ◌%◌, ◌≤◌, ◌<◌, ◌≡◌, ◌≢◌, ◌∙◌, ap, refl, arith, inl, inr, le-cases,
  Bool, false,
}
use flow_q.Prelude.{List, [], ◌∷◌, length, get_or, replicate, ◌==◌, if◌then◌else◌}
use flow_q.ZeroRtt.{set_bit, clear_bits}
use native.Mathlib.Nat.{mod-lt, div-add-mod', mul-le-mul_right, suc-mul}

pub length-set_bit : (bits : List Bool) (i : ℕ) (v : Bool) → length (set_bit bits i v) ≡ length bits
unfolding set_bit
length-set_bit [] i v = refl
length-set_bit (b ∷ bits) zero v = omega arith
length-set_bit (b ∷ bits) (suc i) v = omega (arith, length-set_bit bits i v)

pub get_or-set_bit :
    (bits : List Bool) (i j : ℕ) (v : Bool)
    → i < length bits
    → get_or (set_bit bits i v) j false ≡ (if i == j then v else get_or bits j false)
unfolding set_bit
get_or-set_bit [] i j v h = absurd (omega (arith, h))
get_or-set_bit (b ∷ bits) zero zero v h = ground arith
get_or-set_bit (b ∷ bits) zero (suc j) v h = ground arith
get_or-set_bit (b ∷ bits) (suc i) zero v h = ground arith
get_or-set_bit (b ∷ bits) (suc i) (suc j) v h =
    ground (arith, get_or-set_bit bits i j v (omega (arith, h)))

pub get_or-replicate : (n i : ℕ) → get_or (replicate n false) i false ≡ false
get_or-replicate zero i = refl
get_or-replicate (suc n) zero = refl
get_or-replicate (suc n) (suc i) = get_or-replicate n i

-- Numbers less than a window apart have bits of their own.
pub apart : (w a b : ℕ) → a < b → b - a < w → a % w ≢ b % w
apart w a b below near same = elim (le-cases (b / w) (a / w)) [
  | inl h ↦
      absurd (omega (arith, mul-le-mul_right w h, div-add-mod' a w, div-add-mod' b w, same, below))
  | inr h ↦ absurd (
      omega (
        arith,
        mul-le-mul_right w h,
        suc-mul (a / w) w,
        div-add-mod' a w,
        div-add-mod' b w,
        same,
        near,
      ))
]

pub length-clear_bits :
    (w : ℕ) (bits : List Bool) (n rounds : ℕ) → length (clear_bits w bits n rounds) ≡ length bits
unfolding clear_bits
length-clear_bits w bits n zero = refl
length-clear_bits w bits n (suc rounds) =
    length-clear_bits w (set_bit bits (suc n % w) false) (suc n) rounds
    ∙ length-set_bit bits (suc n % w) false

-- A bit that is clear stays clear.
clear_bits-clear :
    (w : ℕ) (bits : List Bool) (n rounds j : ℕ)
    → 0 < w
    → length bits ≡ w
    → get_or bits j false ≡ false
    → get_or (clear_bits w bits n rounds) j false ≡ false
unfolding clear_bits
clear_bits-clear w bits n zero j pos sized clear = clear
clear_bits-clear w bits n (suc rounds) j pos sized clear =
    clear_bits-clear w (set_bit bits (suc n % w) false) (suc n) rounds j pos
      (length-set_bit bits (suc n % w) false ∙ sized)
      (get_or-set_bit bits (suc n % w) j false (omega (arith, mod-lt (suc n) pos, sized))
        ∙ ground (arith, clear))

-- The numbers that the window takes in are cleared.
pub clear_bits-new :
    (w : ℕ) (bits : List Bool) (n rounds m : ℕ)
    → 0 < w
    → length bits ≡ w
    → n < m
    → m ≤ n + rounds
    → get_or (clear_bits w bits n rounds) (m % w) false ≡ false
unfolding clear_bits
clear_bits-new w bits n zero m pos sized above within = absurd (omega (arith, above, within))
clear_bits-new w bits n (suc rounds) m pos sized above within =
    let bits' = set_bit bits (suc n % w) false in
    let sized' : length bits' ≡ w = length-set_bit bits (suc n % w) false ∙ sized in
    elim (le-cases m (suc n)) [
      | inl first ↦
          let here : suc n ≡ m = omega (arith, first, above) in
          clear_bits-clear w bits' (suc n) rounds (m % w) pos sized' (
            get_or-set_bit bits (suc n % w) (m % w) false (omega (arith, mod-lt (suc n) pos, sized))
            ∙ ground (arith, ap (λ (k : ℕ). k % w) here))
      | inr later ↦ clear_bits-new w bits' (suc n) rounds m pos sized' later (omega (arith, within))
    ]

-- Those that stay in it are kept.
pub clear_bits-old :
    (w : ℕ) (bits : List Bool) (n rounds m : ℕ)
    → 0 < w
    → length bits ≡ w
    → m ≤ n
    → n + rounds - m < w
    → get_or (clear_bits w bits n rounds) (m % w) false ≡ get_or bits (m % w) false
unfolding clear_bits
clear_bits-old w bits n zero m pos sized below near = refl
clear_bits-old w bits n (suc rounds) m pos sized below near =
    let other = apart w m (suc n) (omega (arith, below)) (omega (arith, below, near)) in
    clear_bits-old w (set_bit bits (suc n % w) false) (suc n) rounds m pos
      (length-set_bit bits (suc n % w) false ∙ sized) (omega (arith, below)) (omega (arith, near))
    ∙ get_or-set_bit bits (suc n % w) (m % w) false (omega (arith, mod-lt (suc n) pos, sized))
    ∙ ground (arith, other)
