-- ===== src/ZeroRtt/Window.antt =====
-- The set of the packet numbers accepted, and the bitmap that tracks the latest of them.
use flow_q.Prelude.{
  ℕ, ◌+◌, ◌-◌, ◌%◌, ◌≤◌, ◌<◌, ◌≡◌, ◌≢◌, ◌∙◌, ap, sym, refl, arith, max, inl, inr, le-cases, Bool,
  true, false, not, ◌&&◌, ◌||◌,
}
use flow_q.Prelude.{
  List, [], ◌∷◌, length, length-replicate, get_or, ltb, ◌==◌, if◌then◌else◌, if_cases,
}
use flow_q.ZeroRtt.{ReplayProtection, set_bit, moved, check_and_record}
use flow_q.ZeroRtt.Bitmap.{
  get_or-set_bit, get_or-replicate, apart, length-clear_bits, clear_bits-new, clear_bits-old,
}
use native.Mathlib.Nat.{mod-lt}

abbrev pub has_number : List ℕ → ℕ → Bool
has_number [] n = false
has_number (m ∷ seen) n = m == n || has_number seen n

abbrev pub greatest : List ℕ → ℕ
greatest [] = 0
greatest (m ∷ seen) = max m (greatest seen)

-- What a protection with a window of `window` numbers promises for a packet number, by the set of
-- the numbers that it accepted.
abbrev pub is_fresh : ℕ → List ℕ → ℕ → Bool
is_fresh window seen n =
    not (window == 0) && not (has_number seen n) && ltb (greatest seen) (n + window)

-- The protection and the numbers it accepted, after some packets.
abbrev pub History : Type 0
History = ReplayProtection × List ℕ

unfoldable pub offer : History → ℕ → History
offer (s, seen) n = ((check_and_record s n).0, if (check_and_record s n).1 then n ∷ seen else seen)

unfoldable pub offer_all : History → List ℕ → History
offer_all h [] = h
offer_all h (n ∷ packets) = offer_all (offer h n) packets

pub record Tracks (s : ReplayProtection) (seen : List ℕ) : Type 0 where
  pub filled : 0 < s.window_size
  pub sized : length s.bitmap ≡ s.window_size
  pub newest : s.largest_seen ≡ greatest seen
  pub bits :
      (m : ℕ)
      → m ≤ s.largest_seen
      → s.largest_seen - m < s.window_size
      → get_or s.bitmap (m % s.window_size) false ≡ has_number seen m

pub has_number_past : (seen : List ℕ) (n : ℕ) → greatest seen < n → has_number seen n ≡ false
has_number_past [] n h = refl
has_number_past (m ∷ seen) n h = ground (arith, has_number_past seen n (omega (arith, h)))

-- The bits once a number is recorded.
pub marked :
    (w : ℕ) (bits : List Bool) (seen : List ℕ) (n m : ℕ)
    → 0 < w
    → length bits ≡ w
    → n - m < w
    → m - n < w
    → (m ≢ n → get_or bits (m % w) false ≡ has_number seen m)
    → get_or (set_bit bits (n % w) true) (m % w) false ≡ has_number (n ∷ seen) m
marked w bits seen n m filled sized near near' old =
    get_or-set_bit bits (n % w) (m % w) true (omega (arith, mod-lt n filled, sized))
    ∙ elim (le-cases m n) [
      | inl below ↦ elim (le-cases n m) [
        | inl above ↦
            let same : n ≡ m = omega (arith, below, above) in
            ground (arith, same, ap (λ (k : ℕ). k % w) same)
        | inr less ↦ ground (arith, apart w m n less near, old (λ e. omega (arith, e, less)))
      ]
      | inr more ↦ ground (arith, apart w n m more near', old (λ e. omega (arith, e, more)))
    ]

pub moved-bits :
    (s : ReplayProtection) (seen : List ℕ) (n m : ℕ)
    → Tracks s seen
    → s.largest_seen < n
    → m < n
    → n - m < s.window_size
    → get_or (moved s n) (m % s.window_size) false ≡ has_number seen m
unfolding moved
moved-bits s seen n m tracks up below near =
    let w = s.window_size in
    let past =
      λ (h : s.largest_seen < m). has_number_past seen m (omega (arith, h, tracks.newest)) in
    if_cases (λ (bits : List Bool). get_or bits (m % w) false ≡ has_number seen m)
      (ltb (n - s.largest_seen) w)
      (λ part. elim (le-cases m s.largest_seen) [
        | inl old ↦
            clear_bits-old w s.bitmap s.largest_seen (n - s.largest_seen) m tracks.filled
              tracks.sized old (omega (arith, up, near))
            ∙ tracks.bits m old (omega (arith, up, near))
        | inr new ↦
            clear_bits-new w s.bitmap s.largest_seen (n - s.largest_seen) m tracks.filled
              tracks.sized new (omega (arith, up, below))
            ∙ sym (past new)
      ])
      (λ all.
        get_or-replicate (length s.bitmap) (m % w)
        ∙ sym (past (ground (arith, all, near, up, below))))

pub length-moved : (s : ReplayProtection) (n : ℕ) → length (moved s n) ≡ length s.bitmap
unfolding moved
length-moved s n =
    if_cases (λ (bits : List Bool). length bits ≡ length s.bitmap)
      (ltb (n - s.largest_seen) s.window_size)
      (λ part. length-clear_bits s.window_size s.bitmap s.largest_seen (n - s.largest_seen))
      (λ all. length-replicate (length s.bitmap) false)
