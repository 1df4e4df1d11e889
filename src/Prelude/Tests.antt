-- ===== src/Prelude/Tests.antt =====
-- Boolean tests on the native numbers, and the conditional.
use Prim.Native.Nat.{ℕ, ◌≤◌, ◌<◌, compare, Ordering}
use mathlib.Core.Path.{◌≡◌, refl, ap}
use mathlib.Core.Logic.{◌↔◌, ◌⊎◌, inl, inr}
use mathlib.Core.Bool.{Bool, true, false, ◌||◌}
use mathlib.Core.Option.{Option, none, some}
use native.Mathlib.Omega.{arith}

abbrev pub ltb : ℕ → ℕ → Bool
ltb a b = elim (compare a b) [ Ordering.lt ↦ true | _ ↦ false ]

abbrev pub leb : ℕ → ℕ → Bool
leb a b = elim (compare a b) [ Ordering.gt ↦ false | _ ↦ true ]

infix 50 ◌==◌
abbrev pub ◌==◌ : ℕ → ℕ → Bool
a == b = elim (compare a b) [ Ordering.eq ↦ true | _ ↦ false ]

infix 1 if◌then◌else◌
abbrev pub if◌then◌else◌ {ℓ} : {A : Type ℓ} → Bool → A → A → A
if true then x else y = x
if false then x else y = y

pub ltb→lt : (a b : ℕ) → ltb a b ≡ true → a < b
ltb→lt a b h = ground arith

pub lt→ltb : (a b : ℕ) → a < b → ltb a b ≡ true
lt→ltb a b h = ground arith

pub leb→le : (a b : ℕ) → leb a b ≡ true → a ≤ b
leb→le a b h = ground arith

pub ==_iff : (a b : ℕ) → ((a == b) ≡ true) ↔ (a ≡ b)
==_iff a b = ground arith

pub Bool-cases : (b : Bool) → (b ≡ true) ⊎ (b ≡ false)
Bool-cases true = inl refl
Bool-cases false = inr refl

pub or-eq-false : (a b : Bool) → (a || b) ≡ false → (a ≡ false) × (b ≡ false)
or-eq-false true b h = absurd (cc h)
or-eq-false false b h = (refl, h)

pub Option-cases {ℓ} : {A : Type ℓ} (o : Option A) → (o ≡ none) ⊎ ((a : A) × (o ≡ some a))
Option-cases none = inl refl
Option-cases (some a) = inr (a, refl)

pub le-cases : (a b : ℕ) → (a ≤ b) ⊎ (b < a)
le-cases a b = elim (Bool-cases (leb a b)) [
  | inl h ↦ inl (ground arith)
  | inr h ↦ inr (ground arith)
]

-- A conditional has a property where both branches have it, each under its answer of the test.
pub if_cases {ℓ κ} :
    {A : Type ℓ} (P : A → Type κ) (test : Bool) {x y : A}
    → (test ≡ true → P x)
    → (test ≡ false → P y)
    → P (if test then x else y)
if_cases P true then_case else_case = then_case refl
if_cases P false then_case else_case = else_case refl

pub if-true {ℓ} :
    {A : Type ℓ} {test : Bool} {x : A} (y : A) → test ≡ true → (if test then x else y) ≡ x
if-true {x = x} y h = ap (λ b. if b then x else y) h

pub if-false {ℓ} :
    {A : Type ℓ} {test : Bool} (x : A) {y : A} → test ≡ false → (if test then x else y) ≡ y
if-false x {y = y} h = ap (λ b. if b then x else y) h
