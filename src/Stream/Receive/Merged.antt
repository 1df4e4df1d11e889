-- ===== src/Stream/Receive/Merged.antt =====
-- `buffer_new_suffix`: the new bytes are held behind it, and so is all that was held.
use flow_q.Prelude.{ℕ, suc, ◌+◌, ◌-◌, ◌≤◌, ◌<◌, ◌≡◌, inl, inr, arith, max, ◌&&◌}
use flow_q.Prelude.{
  List, ◌∷◌, ◌++◌, length, get_elem?, get_elem?-drop, drop, length-drop, replicate,
  length-replicate, ltb, leb, if◌then◌else◌, if_cases, ◌∙◌, ap, le-cases,
}
use flow_q.Stream.Receive.{
  Pending, split_first, find_last, Merge, merged_bytes, write_ranges, buffer_new_suffix,
}
use flow_q.Stream.Receive.Layout.{LaidOut, held, held_below, LaidOut-weaken}
use flow_q.Stream.Receive.Written.{
  get_elem?-write_bytes, get_elem?-write_ranges, length-write_ranges, length-write_bytes, or_else,
}
use flow_q.Stream.Receive.Split.{
  IsSplit, split_first-IsSplit, IsMerge, find_last-IsMerge, held-skip, held-append_cong,
  held-append_none, LaidOut-join,
}

-- Between the ends of the merged range stand the new bytes, and around them the ranges touched.
module _ (low offset : ℕ) (bytes : List ℕ) (ranges : Pending) (m : Merge)
    (h : IsMerge low (max offset low) (offset + length bytes) ranges m)
    (some_new : max offset low < offset + length bytes) where
  length-merged : length (merged_bytes m offset bytes) ≡ m.merged_end - m.merged_start
  unfolding merged_bytes
  length-merged =
      length-write_bytes
        (write_ranges m.merged_start (replicate (m.merged_end - m.merged_start) 0) m.touched) _ _
      ∙ length-write_ranges m.merged_start (replicate (m.merged_end - m.merged_start) 0) m.touched
      ∙ length-replicate (m.merged_end - m.merged_start) 0

  merged_at :
      (i : ℕ)
      → m.merged_start ≤ i
      → i < m.merged_end
      → get_elem? (merged_bytes m offset bytes) (i - m.merged_start) ≡ (
          if leb (max offset low) i && ltb i (offset + length bytes)
          then get_elem? bytes (i - offset)
          else held m.touched i)
  unfolding merged_bytes
  merged_at i lower upper =
      let j = i - m.merged_start in
      let zeros : List ℕ = replicate (m.merged_end - m.merged_start) 0 in
      let from = max offset m.merged_start in
      let array = write_ranges m.merged_start zeros m.touched in
      let size : length array ≡ m.merged_end - m.merged_start =
        length-write_ranges m.merged_start zeros m.touched
        ∙ length-replicate (m.merged_end - m.merged_start) 0 in
      let new =
        get_elem?-write_bytes array (from - m.merged_start) (drop (from - offset) bytes) j in
      let old : get_elem? array j
          ≡ or_else (held m.touched (m.merged_start + j)) (get_elem? zeros j) =
        get_elem?-write_ranges m.merged_start m.merged_start zeros m.touched j (omega arith)
          h.laid_touched
          (omega (arith, length-replicate {A = ℕ} (m.merged_end - m.merged_start) 0)) in
      let start : from ≡ max offset low = omega (arith, h.below, h.within) in
      let index : m.merged_start + j ≡ i = omega arith in
      let value = get_elem?-drop (from - offset) bytes (j - (from - m.merged_start)) in
      let shorter = length-drop (from - offset) bytes in
      elim (h.covered i lower upper) [
        | inl (here, upto) ↦
            let index' : from - offset + (j - (from - m.merged_start)) ≡ i - offset = omega arith in
            ground (arith, new, value, shorter, size, ap (get_elem? bytes) index')
        | inr (x, there) ↦ elim (le-cases (max offset low) i) [
          | inr early ↦ ground (arith, new, old, size, there, ap (held m.touched) index)
          | inl late ↦ elim (le-cases (offset + length bytes) i) [
            | inl past ↦ ground (arith, new, old, size, shorter, there, ap (held m.touched) index)
            | inr inside ↦
                let index' : from - offset + (j - (from - m.merged_start)) ≡ i - offset =
                  omega arith in
                ground (arith, new, value, shorter, size, ap (get_elem? bytes) index')
          ]
        ]
      ]

  abbrev merged_range : ℕ × List ℕ
  merged_range = (m.merged_start, merged_bytes m offset bytes)

  -- The ranges from the first one touched, with the merged range in place of those touched.
  held-merged :
      (i : ℕ)
      → held (merged_range ∷ m.after) i ≡ (
          if leb (max offset low) i && ltb i (offset + length bytes)
          then get_elem? bytes (i - offset)
          else held ranges i)
  held-merged i = elim (le-cases m.merged_start i) [
    | inr early ↦ ground (arith, h.below, early, held_below m.merged_start ranges i h.laid early)
    | inl late ↦ elim (le-cases m.merged_end i) [
      | inl past ↦ ground (
        arith,
        length-merged,
        h.above,
        ap (λ (t : Pending). held t i) h.parts,
        held-skip (suc m.merged_end) m.touched m.after i h.ends (omega arith),
      )
      | inr inside ↦ ground (
        arith,
        length-merged,
        merged_at i late inside,
        ap (λ (t : Pending). held t i) h.parts,
        held-append_none m.touched m.after i
            (held_below (suc m.merged_end) m.after i h.laid_after (omega arith)),
      )
    ]
  ]

  merged-LaidOut : LaidOut low (merged_range ∷ m.after)
  merged-LaidOut = (
    h.within,
    omega (arith, length-merged, h.above, h.below),
    LaidOut-weaken (suc m.merged_end) _ m.after (omega (arith, length-merged, h.above, h.below))
        h.laid_after,
  )

IsMerge-weaken :
    (n low start finish : ℕ) (ranges : Pending) (m : Merge)
    → low ≤ n
    → IsMerge n start finish ranges m
    → IsMerge low start finish ranges m
IsMerge-weaken n low start finish ranges m le h = record {
  parts = h.parts;
  below = h.below;
  above = h.above;
  within = omega (arith, le, h.within);
  laid = h.laid;
  laid_touched = h.laid_touched;
  ends = h.ends;
  laid_after = h.laid_after;
  covered = h.covered;
}

-- A map that holds the new bytes from `next` on, and elsewhere what `pending` held.
abbrev pub IsBuffered : ℕ → ℕ → List ℕ → Pending → Pending → Type 0
IsBuffered next offset bytes pending result =
    LaidOut next result
    × ((i : ℕ)
        → held result i ≡ (
            if leb (max offset next) i && ltb i (offset + length bytes)
            then get_elem? bytes (i - offset)
            else held pending i))

joined-IsBuffered :
    (next offset : ℕ) (bytes : List ℕ) (pending before rest : Pending) (m : Merge)
    → max offset next < offset + length bytes
    → IsSplit next (max offset next) pending (before, rest)
    → ((n : ℕ)
        → LaidOut n rest
        → n ≤ max offset next
        → IsMerge n (max offset next) (offset + length bytes) rest m)
    → IsBuffered next offset bytes pending
        (before ++ ((m.merged_start, merged_bytes m offset bytes) ∷ m.after))
joined-IsBuffered next offset bytes pending before rest m new
      (n, whole, laid, ends, behind, above, below, reach) merge =
    let h = merge n behind below in
    let h' = IsMerge-weaken n next (max offset next) (offset + length bytes) rest m above h in
    let (lo, full, after) = merged-LaidOut next offset bytes rest m h' new in
    let range : ℕ × List ℕ = (m.merged_start, merged_bytes m offset bytes) in
    (
      LaidOut-join next n before (range ∷ m.after) laid ends above (h.within, full, after),
      λ i.
          let here = held-merged next offset bytes rest m h' new i in
          let whole_at : held (before ++ rest) i ≡ held pending i =
            ap (λ (t : Pending). held t i) whole in
          elim (le-cases (max offset next) i) [
            | inl late ↦
                held-skip n before (range ∷ m.after) i ends (omega arith)
                ∙ here
                ∙ ground (arith, whole_at, held-skip n before rest i ends (omega arith))
            | inr early ↦
                held-append_cong before (range ∷ m.after) rest i (here ∙ ground (arith, early))
                ∙ ground (arith, whole_at, early)
          ],
    )

-- What `buffer_new_suffix` makes of a map laid out from the next offset on: it stays laid out, and
-- holds the new bytes from there on where they are, and elsewhere what it held.
pub buffer_new_suffix-IsBuffered :
    (next offset : ℕ) (bytes : List ℕ) (pending : Pending)
    → LaidOut next pending
    → IsBuffered next offset bytes pending (buffer_new_suffix next pending offset bytes)
unfolding buffer_new_suffix
buffer_new_suffix-IsBuffered next offset bytes pending laid =
    let start = max offset next in
    let parts = split_first start pending in
    let split = split_first-IsSplit next start pending laid (omega arith) in
    if_cases (IsBuffered next offset bytes pending) (leb (offset + length bytes) start)
      (λ old. (laid, λ i. ground (arith, old)))
      (λ new.
        joined-IsBuffered next offset bytes pending parts.0 parts.1
          (find_last start (offset + length bytes) parts.1) (ground (arith, new)) split
          (λ n behind below.
            find_last-IsMerge n start (offset + length bytes) parts.1 behind below
              (ground (arith, new)) split.7))
