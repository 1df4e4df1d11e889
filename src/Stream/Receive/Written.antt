-- ===== src/Stream/Receive/Written.antt =====
-- The vector `merged`: what stands at each index after the writes.
use flow_q.Prelude.{
  ℕ, zero, suc, ◌+◌, ◌-◌, ◌≤◌, ◌<◌, ◌≡◌, inl, inr, refl, arith, ◌&&◌, Option, none, some,
}
use flow_q.Prelude.{
  List, [], ◌∷◌, length, get_elem?, ltb, leb, ◌==◌, if◌then◌else◌, ◌∙◌, ap, le-cases,
}
use flow_q.Stream.Receive.{Pending, set, write_bytes, write_ranges}
use flow_q.Stream.Receive.Layout.{LaidOut, held, held_below}

length-set : (xs : List ℕ) (i v : ℕ) → length (set xs i v) ≡ length xs
unfolding set
length-set [] i v = refl
length-set (x ∷ xs) zero v = refl
length-set (x ∷ xs) (suc i) v = ap suc (length-set xs i v)

get_elem?-set :
    (xs : List ℕ) (i v j : ℕ)
    → get_elem? (set xs i v) j ≡ (if j == i && ltb j (length xs) then some v else get_elem? xs j)
unfolding set
get_elem?-set [] i v j = ground arith
get_elem?-set (x ∷ xs) zero v zero = ground arith
get_elem?-set (x ∷ xs) zero v (suc j) = ground arith
get_elem?-set (x ∷ xs) (suc i) v zero = ground arith
get_elem?-set (x ∷ xs) (suc i) v (suc j) = ground (arith, get_elem?-set xs i v j)

pub length-write_bytes :
    (xs : List ℕ) (i : ℕ) (bytes : List ℕ) → length (write_bytes xs i bytes) ≡ length xs
unfolding write_bytes
length-write_bytes xs i [] = refl
length-write_bytes xs i (b ∷ bytes) =
    length-write_bytes (set xs i b) (suc i) bytes ∙ length-set xs i b

-- The element of `b ∷ bytes` at a positive index.
get_elem?-later :
    (b : ℕ) (bytes : List ℕ) (k : ℕ) → 0 < k → get_elem? (b ∷ bytes) k ≡ get_elem? bytes (k - 1)
get_elem?-later b bytes zero h = absurd (omega (arith, h))
get_elem?-later b bytes (suc k) h = ap (get_elem? bytes) (omega arith)

get_elem?-first : (b : ℕ) (bytes : List ℕ) (k : ℕ) → k ≡ 0 → get_elem? (b ∷ bytes) k ≡ some b
get_elem?-first b bytes zero h = refl
get_elem?-first b bytes (suc k) h = absurd (omega (arith, h))

pub get_elem?-write_bytes :
    (xs : List ℕ) (i : ℕ) (bytes : List ℕ) (j : ℕ)
    → get_elem? (write_bytes xs i bytes) j ≡ (
        if leb i j && ltb j (i + length bytes) && ltb j (length xs)
        then get_elem? bytes (j - i)
        else get_elem? xs j)
unfolding write_bytes
get_elem?-write_bytes xs i [] j = ground arith
get_elem?-write_bytes xs i (b ∷ bytes) j = elim (le-cases (suc i) j) [
  | inl later ↦
      let index : j - i - 1 ≡ j - suc i = omega (arith, later) in
      ground (
        arith,
        get_elem?-write_bytes (set xs i b) (suc i) bytes j,
        get_elem?-set xs i b j,
        length-set xs i b,
        get_elem?-later b bytes (j - i),
        ap (get_elem? bytes) index,
      )
  | inr early ↦ ground (
    arith,
    get_elem?-write_bytes (set xs i b) (suc i) bytes j,
    get_elem?-set xs i b j,
    length-set xs i b,
    get_elem?-first b bytes (j - i),
  )
]

pub length-write_ranges :
    (low : ℕ) (xs : List ℕ) (ranges : Pending) → length (write_ranges low xs ranges) ≡ length xs
unfolding write_ranges
length-write_ranges low xs [] = refl
length-write_ranges low xs ((key, bytes) ∷ ranges) =
    length-write_ranges low (write_bytes xs (key - low) bytes) ranges
    ∙ length-write_bytes xs (key - low) bytes

abbrev pub or_else : Option ℕ → Option ℕ → Option ℕ
or_else none other = other
or_else (some a) other = some a

pub get_elem?_within : (xs : List ℕ) (i : ℕ) → i < length xs → (x : ℕ) × (get_elem? xs i ≡ some x)
get_elem?_within [] i h = absurd (omega (arith, h))
get_elem?_within (x ∷ xs) zero h = (x, refl)
get_elem?_within (x ∷ xs) (suc i) h = get_elem?_within xs i (omega (arith, h))

-- Ranges from `low` on, written at their distance from it.
pub get_elem?-write_ranges :
    (low from : ℕ) (xs : List ℕ) (ranges : Pending) (j : ℕ)
    → low ≤ from
    → LaidOut from ranges
    → j < length xs
    → get_elem? (write_ranges low xs ranges) j ≡ or_else (held ranges (low + j)) (get_elem? xs j)
unfolding write_ranges
get_elem?-write_ranges low from xs [] j le laid within = refl
get_elem?-write_ranges low from xs ((key, bytes) ∷ ranges) j le (lo, full, rest) within =
    let here = write_bytes xs (key - low) bytes in
    let behind = suc (key + length bytes) in
    let ih =
      get_elem?-write_ranges low behind here ranges j (omega arith) rest
        (omega (arith, length-write_bytes xs (key - low) bytes, within)) in
    let written = get_elem?-write_bytes xs (key - low) bytes j in
    elim (le-cases key (low + j)) [
      | inr early ↦
          let nothing = held_below behind ranges (low + j) rest (omega arith) in
          ground (arith, ih, written, nothing)
      | inl reached ↦ elim (le-cases (key + length bytes) (low + j)) [
        | inl past ↦ ground (arith, ih, written)
        | inr inside ↦
            let nothing = held_below behind ranges (low + j) rest (omega arith) in
            let index : low + j - key ≡ j - (key - low) = omega arith in
            let (x, there) = get_elem?_within bytes (j - (key - low)) (omega arith) in
            ground (arith, ih, written, nothing, there, ap (get_elem? bytes) index)
      ]
    ]
