-- ===== src/AckLoss/Sets.antt =====
-- Sets of packet numbers as ascending lists.
use flow_q.Prelude.{ℕ, zero, suc, ◌+◌, ◌<◌, ◌≡◌, refl, ◌∙◌, arith}
use flow_q.Prelude.{Bool, List, [], ◌∷◌, leb, ◌==◌, ◌&&◌, ◌||◌}
use flow_q.AckLoss.{contains, insert, insert_run, descending}

-- Every element is above the one before it, and the first is above the bound.
abbrev pub Above : ℕ → List ℕ → Type 0
Above bound [] = Unit
Above bound (x ∷ xs) = (bound < x) × Above x xs

abbrev pub IsAscending : List ℕ → Type 0
IsAscending [] = Unit
IsAscending (x ∷ xs) = Above x xs

abbrev pub Below : ℕ → List ℕ → Type 0
Below bound [] = Unit
Below bound (x ∷ xs) = (x < bound) × Below x xs

abbrev pub IsDescending : List ℕ → Type 0
IsDescending [] = Unit
IsDescending (x ∷ xs) = Below x xs

pub contains-insert : (m n : ℕ) (xs : List ℕ) → contains m (insert n xs) ≡ (m == n || contains m xs)
unfolding contains insert
contains-insert m n [] = refl
contains-insert m n (x ∷ xs) = ground (arith, contains-insert m n xs)

insert-Above : (bound n : ℕ) (xs : List ℕ) → bound < n → Above bound xs → Above bound (insert n xs)
unfolding insert
insert-Above bound n [] h a = (h, tt)
insert-Above bound n (x ∷ xs) h a = ground (arith, insert-Above x n xs)

pub insert-IsAscending : (n : ℕ) (xs : List ℕ) → IsAscending xs → IsAscending (insert n xs)
unfolding insert
insert-IsAscending n [] h = tt
insert-IsAscending n (x ∷ xs) h = ground (arith, insert-Above x n xs)

abbrev pub within : ℕ → ℕ → ℕ → Bool
within low high n = leb low n && leb n high

-- The loop over a run inserts exactly the run.
pub contains-insert_run :
    (m rounds packet : ℕ) (xs : List ℕ)
    → contains m (insert_run rounds packet xs)
      ≡ (within packet (packet + rounds) m || contains m xs)
unfolding insert_run
contains-insert_run m zero packet xs = contains-insert m packet xs ∙ ground arith
contains-insert_run m (suc rounds) packet xs =
    contains-insert_run m rounds (packet + 1) (insert packet xs)
    ∙ rw (contains-insert m packet xs) (ground arith)

-- Reverse iteration visits the same elements, the highest first.
pub contains-descending :
    (m : ℕ) (xs seen : List ℕ)
    → contains m (descending xs seen) ≡ (contains m xs || contains m seen)
unfolding descending contains
contains-descending m [] seen = refl
contains-descending m (x ∷ xs) seen = contains-descending m xs (x ∷ seen) ∙ ground arith

descending_onto :
    (x : ℕ) (xs seen : List ℕ) → Above x xs → Below x seen → IsDescending (descending xs (x ∷ seen))
unfolding descending
descending_onto x [] seen a b = b
descending_onto x (y ∷ xs) seen a b = descending_onto y xs (x ∷ seen) a.1 (a.0, b)

pub descending-IsDescending : (xs : List ℕ) → IsAscending xs → IsDescending (descending xs [])
unfolding descending
descending-IsDescending [] h = tt
descending-IsDescending (x ∷ xs) h = descending_onto x xs [] h tt
