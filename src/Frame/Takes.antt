-- ===== src/Frame/Takes.antt =====
-- Rules for the decoder's steps: what each establishes, and that it only moves the cursor on.
use flow_q.Prelude.{ℕ, ◌≤◌, ◌≡◌, refl, arith, String}
use flow_q.Prelude.{List, length, Bool, true, false}
use flow_q.Prelude.{All, IsByte, All-drop, length-take, length-drop, if◌then◌else◌}
use flow_q.Prelude.{Error, Result, ok, err, ◌>>=◌, or_fail-eq-ok, ok-injective, subst, bind-eq-ok}
use flow_q.Frame.Cursor.{Encodable, read_varint_at_takes}
use flow_q.Frame.Decode.{read, read_bytes}

-- A successful step establishes `P` and leaves a suffix of the input, which is bytes again.
pub record Takes {ℓ} {A : Type ℓ} (P : A → Type 0) (input : List ℕ) (r : Result (A × List ℕ))
    : Type ℓ where
  pub takes :
      (a : A) (rest : List ℕ)
      → r ≡ ok (a, rest)
      → P a × (length rest ≤ length input) × All IsByte rest

module _ {ℓ κ} {A : Type ℓ} {B : Type κ} {P : A → Type 0} {Q : B → Type 0} where
  -- One step of a `do` block.
  pub Takes-bind :
      {input : List ℕ} (m : Result (A × List ℕ)) (k : A × List ℕ → Result (B × List ℕ))
      → Takes P input m
      → ((a : A) (rest : List ℕ) → P a → All IsByte rest → Takes Q rest (k (a, rest)))
      → Takes Q input (m >>= k)
  Takes-bind {input} m k first next = record {
    takes = λ b rest e.
        let ((a, rest'), e₁, e₂) = bind-eq-ok m k e in
        let (p, shorter, all) = first.takes a rest' e₁ in
        let (q, shorter', all') = (next a rest' p all).takes b rest e₂ in (q, omega arith, all');
  }

module _ {ℓ} {A : Type ℓ} {P : A → Type 0} where
  pub Takes-ok : {input : List ℕ} (a : A) → P a → All IsByte input → Takes P input (ok (a, input))
  Takes-ok {input} a p all = record {
    takes = λ b rest e.
        subst (λ (t : A × List ℕ). P t.0 × (length t.1 ≤ length input) × All IsByte t.1)
          (ok-injective e) (p, omega arith, all);
  }

  pub Takes-err : {input : List ℕ} (e : Error) → Takes P input (err e)
  Takes-err e = record { takes = λ b rest h. absurd (cc h) }

  pub Takes-if :
      {input : List ℕ} (b : Bool) (m n : Result (A × List ℕ))
      → (b ≡ true → Takes P input m)
      → (b ≡ false → Takes P input n)
      → Takes P input (if b then m else n)
  Takes-if true m n h k = h refl
  Takes-if false m n h k = k refl

pub Takes-read :
    (message : String) (input : List ℕ)
    → All IsByte input
    → Takes Encodable input (read message input)
Takes-read message input all = record {
  takes = λ v rest e.
      let (small, shorter, all') = read_varint_at_takes input all (or_fail-eq-ok _ _ e) in
      (small, omega arith, all');
}

pub Takes-read_bytes :
    (message : String) (n : ℕ) (input : List ℕ)
    → All IsByte input
    → Takes (λ xs. length xs ≡ n) input (read_bytes message n input)
unfolding read_bytes
Takes-read_bytes message n input all = record {
  takes = λ xs rest e.
      ground (arith, length-take n input, length-drop n input, All-drop IsByte n input all);
}

pub Takes-weaken {ℓ} :
    {A : Type ℓ} {P Q : A → Type 0} {input : List ℕ} (r : Result (A × List ℕ))
    → ((a : A) → P a → Q a)
    → Takes P input r
    → Takes Q input r
Takes-weaken r f t = record {
  takes = λ a rest e. let (p, shorter, all) = t.takes a rest e in (f a p, shorter, all);
}
