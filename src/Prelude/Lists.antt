-- ===== src/Prelude/Lists.antt =====
-- Lists measured and indexed by native numbers, under the library's names.
use Prim.Native.Nat.{ℕ, zero, suc, ◌+◌, ◌-◌, min}
use mathlib.Core.Path.{◌≡◌, refl, ap, sym, ◌∙◌}
use mathlib.Core.List.{List, [], ◌∷◌, ◌++◌}
use mathlib.Core.Option.{Option, none, some}
use native.Mathlib.Omega.{arith}

module _ {ℓ} {A : Type ℓ} where
  abbrev pub length : List A → ℕ
  length [] = 0
  length (x ∷ xs) = suc (length xs)

  abbrev pub get_elem? : List A → ℕ → Option A
  get_elem? [] i = none
  get_elem? (x ∷ xs) zero = some x
  get_elem? (x ∷ xs) (suc i) = get_elem? xs i

  abbrev pub get_or : List A → ℕ → A → A
  get_or [] i d = d
  get_or (x ∷ xs) zero d = x
  get_or (x ∷ xs) (suc i) d = get_or xs i d

  abbrev pub take : ℕ → List A → List A
  take zero xs = []
  take (suc n) [] = []
  take (suc n) (x ∷ xs) = x ∷ take n xs

  abbrev pub drop : ℕ → List A → List A
  drop zero xs = xs
  drop (suc n) [] = []
  drop (suc n) (x ∷ xs) = drop n xs

  abbrev pub replicate : ℕ → A → List A
  replicate zero a = []
  replicate (suc n) a = a ∷ replicate n a

  abbrev pub All {κ} : (A → Type κ) → List A → Type κ
  All P [] = Unit {κ}
  All P (x ∷ xs) = P x × All P xs

  pub length-append : (xs ys : List A) → length (xs ++ ys) ≡ length xs + length ys
  length-append [] ys = omega arith
  length-append (x ∷ xs) ys = omega (arith, length-append xs ys)

  pub length-take : (n : ℕ) (xs : List A) → length (take n xs) ≡ min n (length xs)
  length-take zero xs = omega arith
  length-take (suc n) [] = omega arith
  length-take (suc n) (x ∷ xs) = omega (arith, length-take n xs)

  pub length-drop : (n : ℕ) (xs : List A) → length (drop n xs) ≡ length xs - n
  length-drop zero xs = omega arith
  length-drop (suc n) [] = omega arith
  length-drop (suc n) (x ∷ xs) = omega (arith, length-drop n xs)

  pub length-replicate : (n : ℕ) (a : A) → length (replicate n a) ≡ n
  length-replicate zero a = refl
  length-replicate (suc n) a = ap suc (length-replicate n a)

  pub take-length-append : (xs ys : List A) → take (length xs) (xs ++ ys) ≡ xs
  take-length-append [] ys = refl
  take-length-append (x ∷ xs) ys = ap (◌∷◌ x) (take-length-append xs ys)

  pub drop-length-append : (xs ys : List A) → drop (length xs) (xs ++ ys) ≡ ys
  drop-length-append [] ys = refl
  drop-length-append (x ∷ xs) ys = drop-length-append xs ys

  pub take-append-drop : (n : ℕ) (xs : List A) → take n xs ++ drop n xs ≡ xs
  take-append-drop zero xs = refl
  take-append-drop (suc n) [] = refl
  take-append-drop (suc n) (x ∷ xs) = ap (◌∷◌ x) (take-append-drop n xs)

  pub take-all : (xs : List A) → take (length xs) xs ≡ xs
  take-all [] = refl
  take-all (x ∷ xs) = ap (◌∷◌ x) (take-all xs)

  pub drop-all : (xs : List A) → drop (length xs) xs ≡ []
  drop-all [] = refl
  drop-all (x ∷ xs) = drop-all xs

  pub All-take {κ} : (P : A → Type κ) (n : ℕ) (xs : List A) → All P xs → All P (take n xs)
  All-take P zero xs h = tt
  All-take P (suc n) [] h = tt
  All-take P (suc n) (x ∷ xs) h = (h.0, All-take P n xs h.1)

  pub All-drop {κ} : (P : A → Type κ) (n : ℕ) (xs : List A) → All P xs → All P (drop n xs)
  All-drop P zero xs h = h
  All-drop P (suc n) [] h = tt
  All-drop P (suc n) (x ∷ xs) h = All-drop P n xs h.1

  pub All-append {κ} :
      (P : A → Type κ) (front back : List A) → All P front → All P back → All P (front ++ back)
  All-append P [] back f b = b
  All-append P (x ∷ front) back f b = (f.0, All-append P front back f.1 b)

  pub All-weaken {κ μ} :
      {P : A → Type κ} {Q : A → Type μ}
      → ((a : A) → P a → Q a)
      → (xs : List A) → All P xs
      → All Q xs
  All-weaken implied [] all = tt
  All-weaken implied (x ∷ xs) all = (implied x all.0, All-weaken implied xs all.1)

  take-nil : (n : ℕ) → ◌≡◌ {A = List A} (take n []) []
  take-nil zero = refl
  take-nil (suc n) = refl

  drop-nil : (n : ℕ) → ◌≡◌ {A = List A} (drop n []) []
  drop-nil zero = refl
  drop-nil (suc n) = refl

  -- A list from `m` on: the next `n` elements, and the list from there on.
  pub take-drop : (m n : ℕ) (xs : List A) → take n (drop m xs) ++ drop (m + n) xs ≡ drop m xs
  take-drop zero n xs = ap (λ k. take n xs ++ drop k xs) (omega arith) ∙ take-append-drop n xs
  take-drop (suc m) n [] = rw (take-nil n, drop-nil (suc m + n)) refl
  take-drop (suc m) n (x ∷ xs) =
      let behind : suc m + n ≡ suc (m + n) = omega arith in
      ap (λ k. take n (drop m xs) ++ drop k (x ∷ xs)) behind ∙ take-drop m n xs

  pub get_elem?-drop :
      (k : ℕ) (xs : List A) (i : ℕ) → get_elem? (drop k xs) i ≡ get_elem? xs (k + i)
  get_elem?-drop zero xs i = ap (get_elem? xs) (omega arith)
  get_elem?-drop (suc k) [] i = refl
  get_elem?-drop (suc k) (x ∷ xs) i =
      let index : suc k + i ≡ suc (k + i) = omega arith in
      get_elem?-drop k xs i ∙ ap (get_elem? (x ∷ xs)) (sym index)
