-- ===== src/Stream/Receive/Split.antt =====
-- The ranges before the new bytes, and those that they touch.
use flow_q.Prelude.{
  ℕ, suc, ◌+◌, ◌-◌, ◌≤◌, ◌<◌, ◌≡◌, ◌⊎◌, inl, inr, refl, arith, min, max, false, ◌&&◌, ◌||◌, none,
  some,
}
use flow_q.Prelude.{List, [], ◌∷◌, ◌++◌, length, ltb, leb, if_cases, ap, sym, subst, le-cases}
use flow_q.Stream.Receive.{Pending, is_lower_bound, split_first, find_last, Merge}
use flow_q.Stream.Receive.Layout.{LaidOut, held, held_below, LaidOut-weaken}
use flow_q.Stream.Receive.Written.{get_elem?_within}

-- Every range ends before `n`.
abbrev pub EndsBefore : ℕ → Pending → Type 0
EndsBefore n [] = Unit {0}
EndsBefore n ((key, bytes) ∷ ranges) = (key + length bytes < n) × EndsBefore n ranges

pub held-skip :
    (n : ℕ) (before ranges : Pending) (i : ℕ)
    → EndsBefore n before
    → n ≤ suc i
    → held (before ++ ranges) i ≡ held ranges i
held-skip n [] ranges i ends h = refl
held-skip n ((key, bytes) ∷ before) ranges i ends h =
    ground (arith, held-skip n before ranges i ends.1 h)

pub held-append_cong :
    (before xs ys : Pending) (i : ℕ)
    → held xs i ≡ held ys i
    → held (before ++ xs) i ≡ held (before ++ ys) i
held-append_cong [] xs ys i e = e
held-append_cong ((key, bytes) ∷ before) xs ys i e =
    ground (arith, held-append_cong before xs ys i e)

pub held-append_none :
    (ranges xs : Pending) (i : ℕ) → held xs i ≡ none → held (ranges ++ xs) i ≡ held ranges i
held-append_none [] xs i e = e
held-append_none ((key, bytes) ∷ ranges) xs i e = ground (arith, held-append_none ranges xs i e)

pub LaidOut-join :
    (low n : ℕ) (before ranges : Pending)
    → LaidOut low before
    → EndsBefore n before
    → low ≤ n
    → LaidOut n ranges
    → LaidOut low (before ++ ranges)
LaidOut-join low n [] ranges laid ends le more = LaidOut-weaken n low ranges le more
LaidOut-join low n ((key, bytes) ∷ before) ranges (lo, full, rest) ends le more = (
  lo,
  full,
  LaidOut-join (suc (key + length bytes)) n before ranges rest ends.1 (omega (arith, ends.0)) more,
)

-- The first range, if there is one, ends at `start` or later.
abbrev pub Reaches : ℕ → Pending → Type 0
Reaches start [] = Unit {0}
Reaches start ((key, bytes) ∷ ranges) = start ≤ key + length bytes

abbrev pub IsSplit : ℕ → ℕ → Pending → Pending × Pending → Type 0
IsSplit low start ranges (before, rest) =
    (n : ℕ) × (before ++ rest ≡ ranges)
    × LaidOut low before
    × EndsBefore n before
    × LaidOut n rest
    × (low ≤ n)
    × (n ≤ start)
    × Reaches start rest

room_before :
    (start key : ℕ) (bytes : List ℕ) (ranges : Pending)
    → LaidOut (suc (key + length bytes)) ranges
    → leb start key || (is_lower_bound start ranges && leb start (key + length bytes)) ≡ false
    → suc (key + length bytes) ≤ start
room_before start key bytes [] laid h = ground arith
room_before start key bytes ((next, more) ∷ ranges) laid h = ground arith

pub split_first-IsSplit :
    (low start : ℕ) (ranges : Pending)
    → LaidOut low ranges
    → low ≤ start
    → IsSplit low start ranges (split_first start ranges)
unfolding split_first
split_first-IsSplit low start [] laid le = (low, refl, tt, tt, tt, omega arith, le, tt)
split_first-IsSplit low start ((key, bytes) ∷ ranges) (lo, full, rest) le =
    if_cases (IsSplit low start ((key, bytes) ∷ ranges))
      (leb start key || (is_lower_bound start ranges && leb start (key + length bytes)))
      (λ here. (low, refl, tt, tt, (lo, full, rest), omega arith, le, ground (arith, here)))
      (λ later.
        let room = room_before start key bytes ranges rest later in
        let (n, whole, laid, ends, behind, above, below, reach) =
          split_first-IsSplit (suc (key + length bytes)) start ranges rest room in
        (
          n,
          ap (◌∷◌ (key, bytes)) whole,
          (lo, full, laid),
          (omega (arith, above), ends),
          behind,
          omega (arith, lo, above),
          below,
          reach,
        ))

-- What the loop of `buffer_new_suffix` finds from `start` to `finish`.
pub record IsMerge (low start finish : ℕ) (ranges : Pending) (m : Merge) : Type 0 where
  pub parts : m.touched ++ m.after ≡ ranges
  pub below : m.merged_start ≤ start
  pub above : finish ≤ m.merged_end
  pub within : low ≤ m.merged_start
  pub laid : LaidOut m.merged_start ranges
  pub laid_touched : LaidOut m.merged_start m.touched
  pub ends : EndsBefore (suc m.merged_end) m.touched
  pub laid_after : LaidOut (suc m.merged_end) m.after
  pub covered :
      (i : ℕ)
      → m.merged_start ≤ i
      → i < m.merged_end
      → ((start ≤ i) × (i < finish)) ⊎ ((x : ℕ) × (held m.touched i ≡ some x))

LaidOut-front :
    (low : ℕ) (front ranges : Pending) → LaidOut low (front ++ ranges) → LaidOut low front
LaidOut-front low [] ranges laid = tt
LaidOut-front low ((key, bytes) ∷ front) ranges (lo, full, rest) =
    (lo, full, LaidOut-front (suc (key + length bytes)) front ranges rest)

next-Reaches :
    (start low : ℕ) (ranges : Pending) → LaidOut low ranges → start ≤ low → Reaches start ranges
next-Reaches start low [] laid le = tt
next-Reaches start low ((key, bytes) ∷ ranges) laid le = omega (arith, laid.0)

held-first :
    (key : ℕ) (bytes : List ℕ) (ranges : Pending) (i : ℕ)
    → key ≤ i
    → i < key + length bytes
    → (x : ℕ) × (held ((key, bytes) ∷ ranges) i ≡ some x)
held-first key bytes ranges i from upto =
    let (x, there) = get_elem?_within bytes (i - key) (omega arith) in (x, ground (arith, there))

-- One more range that the run from `start` to `finish` touches.
touched_more :
    (start finish key : ℕ) (bytes : List ℕ) (touched : Pending) (i : ℕ)
    → start ≤ key + length bytes
    → key ≤ finish
    → LaidOut (suc (key + length bytes)) touched
    → ((min start key ≤ i) × (i < max finish (key + length bytes)))
      ⊎ ((x : ℕ) × (held touched i ≡ some x))
    → ((start ≤ i) × (i < finish)) ⊎ ((x : ℕ) × (held ((key, bytes) ∷ touched) i ≡ some x))
touched_more start finish key bytes touched i reach touching laid (inl (from, upto)) =
    elim (le-cases start i) [
      | inr early ↦ inr (held-first key bytes touched i (omega arith) (omega arith))
      | inl later ↦ elim (le-cases finish i) [
        | inr inside ↦ inl (later, inside)
        | inl past ↦ inr (held-first key bytes touched i (omega arith) (omega arith))
      ]
    ]
touched_more start finish key bytes touched i reach touching laid (inr (x, there)) =
    elim (le-cases (suc (key + length bytes)) i) [
      | inl past ↦ inr (x, ground arith)
      | inr early ↦ absurd (cc (there, held_below (suc (key + length bytes)) touched i laid early))
    ]

touched-IsMerge :
    (low start finish key : ℕ) (bytes : List ℕ) (ranges : Pending) (m : Merge)
    → low ≤ key
    → 0 < length bytes
    → LaidOut (suc (key + length bytes)) ranges
    → start ≤ finish
    → start ≤ key + length bytes
    → key ≤ finish
    → IsMerge low (min start key) (max finish (key + length bytes)) ranges m
    → IsMerge low start finish
        ((key, bytes) ∷ ranges)
        (record m { touched = (key, bytes) ∷ m.touched })
touched-IsMerge low start finish key bytes ranges m lo full rest order reach touching h =
    let behind = suc (key + length bytes) in
    let laid = LaidOut-front behind m.touched m.after (subst (LaidOut behind) (sym h.parts) rest) in
    record {
      parts = ap (◌∷◌ (key, bytes)) h.parts;
      below = omega (arith, h.below);
      above = omega (arith, h.above);
      within = h.within;
      laid = (omega (arith, h.below), full, rest);
      laid_touched = (omega (arith, h.below), full, laid);
      ends = (omega (arith, h.above), h.ends);
      laid_after = h.laid_after;
      covered = λ i p q.
          touched_more start finish key bytes m.touched i reach touching laid (h.covered i p q);
    }

pub find_last-IsMerge :
    (low start finish : ℕ) (ranges : Pending)
    → LaidOut low ranges
    → low ≤ start
    → start ≤ finish
    → Reaches start ranges
    → IsMerge low start finish ranges (find_last start finish ranges)
unfolding find_last
find_last-IsMerge low start finish [] laid le order reach = record {
  parts = refl;
  below = omega arith;
  above = omega arith;
  within = le;
  laid = tt;
  laid_touched = tt;
  ends = tt;
  laid_after = tt;
  covered = λ i p q. inl (p, q);
}
find_last-IsMerge low start finish ((key, bytes) ∷ ranges) (lo, full, rest) le order reach =
    if_cases (IsMerge low start finish ((key, bytes) ∷ ranges)) (ltb finish key)
      (λ behind. record {
        parts = refl;
        below = omega arith;
        above = omega arith;
        within = le;
        laid = (ground (arith, behind), full, rest);
        laid_touched = tt;
        ends = tt;
        laid_after = (ground (arith, behind), full, rest);
        covered = λ i p q. inl (p, q);
      })
      (λ touching.
        touched-IsMerge low start finish key bytes ranges
          (find_last (min start key) (max finish (key + length bytes)) ranges) lo full rest order
          reach (ground (arith, touching))
          (find_last-IsMerge low (min start key) (max finish (key + length bytes)) ranges
            (LaidOut-weaken (suc (key + length bytes)) low ranges (omega (arith, lo)) rest)
            (omega (arith, lo, le)) (omega (arith, order))
            (next-Reaches (min start key) (suc (key + length bytes)) ranges rest (omega arith))))
