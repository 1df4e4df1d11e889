-- ===== src/Stream/Receive/Layout.antt =====
-- The map of pending ranges: apart from one another, in order, none of them empty; and the byte that
-- it holds at an offset.
use flow_q.Prelude.{ℕ, suc, ◌+◌, ◌-◌, ◌≤◌, ◌<◌, ◌≡◌, inl, inr, refl, arith, Option, none, some}
use flow_q.Prelude.{List, [], ◌∷◌, length, get_elem?, ltb, if◌then◌else◌, le-cases}
use flow_q.Stream.Receive.{Pending, range_before, byte_in}

-- Every range starts at `low` or later, and one free byte or more behind the range before it.
abbrev pub LaidOut : ℕ → Pending → Type 0
LaidOut low [] = Unit {0}
LaidOut low ((key, bytes) ∷ ranges) =
    (low ≤ key) × (0 < length bytes) × LaidOut (suc (key + length bytes)) ranges

abbrev pub held : Pending → ℕ → Option ℕ
held [] i = none
held ((key, bytes) ∷ ranges) i =
    if ltb i key
    then none
    else if ltb i (key + length bytes)
    then get_elem? bytes (i - key)
    else held ranges i

pub LaidOut-weaken :
    (low low' : ℕ) (ranges : Pending) → low' ≤ low → LaidOut low ranges → LaidOut low' ranges
LaidOut-weaken low low' [] le laid = tt
LaidOut-weaken low low' ((key, bytes) ∷ ranges) le (lo, full, rest) =
    (omega (arith, le, lo), full, rest)

pub held_below :
    (low : ℕ) (ranges : Pending) (i : ℕ) → LaidOut low ranges → i < low → held ranges i ≡ none
held_below low [] i laid h = refl
held_below low ((key, bytes) ∷ ranges) i laid h = ground arith

range_before_below :
    (low : ℕ) (ranges : Pending) (i : ℕ)
    → LaidOut low ranges
    → i < low
    → range_before i ranges ≡ none
unfolding range_before
range_before_below low [] i laid h = refl
range_before_below low ((key, bytes) ∷ ranges) i laid h = ground arith

-- One range in front of the others, of which the lookup gave `later`.
found :
    (later : Option (ℕ × List ℕ)) (key : ℕ) (bytes : List ℕ) (i : ℕ) (rest : Option ℕ)
    → (i < key + length bytes → later ≡ none)
    → byte_in i later ≡ rest
    → byte_in i (
        if ltb i key
        then none
        else elim later [ none ↦ some (key, bytes) | some range ↦ some range ])
      ≡ (if ltb i key
          then none
          else if ltb i (key + length bytes)
          then get_elem? bytes (i - key)
          else rest)
found none key bytes i rest nothing e = ground arith
found (some (start, more)) key bytes i rest nothing e = elim (le-cases (key + length bytes) i) [
  | inl behind ↦ ground arith
  | inr here ↦ absurd (cc (nothing here))
]

-- The lookup of the source finds the byte held.
pub range_before-held :
    (low : ℕ) (ranges : Pending) (i : ℕ)
    → LaidOut low ranges
    → byte_in i (range_before i ranges) ≡ held ranges i
unfolding range_before
range_before-held low [] i laid = refl
range_before-held low ((key, bytes) ∷ ranges) i (lo, full, rest) =
    found (range_before i ranges) key bytes i (held ranges i)
      (λ h. range_before_below (suc (key + length bytes)) ranges i rest (omega (arith, h)))
      (range_before-held (suc (key + length bytes)) ranges i rest)
