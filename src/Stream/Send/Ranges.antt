-- ===== src/Stream/Send/Ranges.antt =====
-- The ranges of a sending stream: sent, within its bytes, with a FIN only at their end.
use flow_q.Prelude.{ℕ, zero, suc, ◌+◌, ◌≤◌, ◌≡◌, ◌⊎◌, inl, inr, refl, arith, Bool, true, false}
use flow_q.Prelude.{List, [], ◌∷◌, length, take, drop, get_or, All, All-weaken, u64_max, ap, ◌∙◌}
use flow_q.Stream.Send.{
  StreamSendRange, StreamSendState, valid_sent_range, remove_covered, copy_bytes,
}

-- Of a stream with `size` bytes, the first `next` of them sent.
abbrev pub IsSentRange : ℕ → ℕ → Bool → StreamSendRange → Type 0
IsSentRange next size finished range =
    (range.offset + range.length ≤ next)
    × ((range.fin ≡ false) ⊎ ((finished ≡ true) × (range.offset + range.length ≡ size)))

pub valid_sent_range-IsSentRange :
    (s : StreamSendState) (range : StreamSendRange)
    → length s.bytes ≤ u64_max
    → valid_sent_range s range ≡ true
    → IsSentRange s.next_unsent_offset (length s.bytes) s.finished range
unfolding valid_sent_range
valid_sent_range-IsSentRange s range small valid = ground arith

pub later-IsSentRange :
    (next next' size : ℕ) (finished : Bool) (ranges : List StreamSendRange)
    → next ≤ next'
    → All (IsSentRange next size finished) ranges
    → All (IsSentRange next' size finished) ranges
later-IsSentRange next next' size finished ranges le =
    All-weaken (λ range h. (omega (arith, le, h.0), h.1)) ranges

pub finished-IsSentRange :
    (next size : ℕ) (finished : Bool) (ranges : List StreamSendRange)
    → All (IsSentRange next size finished) ranges
    → All (IsSentRange next size true) ranges
finished-IsSentRange next size finished =
    All-weaken (λ range h. (h.0, elim h.1 [ inl none ↦ inl none | inr end ↦ inr (refl, end.1) ]))

pub unfinished-IsSentRange :
    (next size size' : ℕ) (finished : Bool) (ranges : List StreamSendRange)
    → finished ≡ false
    → All (IsSentRange next size finished) ranges
    → All (IsSentRange next size' finished) ranges
unfinished-IsSentRange next size size' finished ranges unfinished =
    All-weaken
      (λ range h.
        (h.0, elim h.1 [ inl none ↦ inl none | inr end ↦ absurd (cc (unfinished, end.0)) ]))
      ranges

pub remove_covered-All :
    (P : StreamSendRange → Type 0) (range : StreamSendRange) (ranges : List StreamSendRange)
    → All P ranges
    → All P (remove_covered range ranges)
unfolding remove_covered
remove_covered-All P range [] all = tt
remove_covered-All P range (l ∷ ls) all = ground (arith, remove_covered-All P range ls all.1)

copy_bytes-cons :
    (x : ℕ) (xs : List ℕ) (start rounds : ℕ)
    → copy_bytes (x ∷ xs) (suc start) rounds ≡ copy_bytes xs start rounds
unfolding copy_bytes
copy_bytes-cons x xs start zero = refl
copy_bytes-cons x xs start (suc rounds) =
    ap (◌∷◌ (get_or xs start 0)) (copy_bytes-cons x xs (suc start) rounds)

-- Within the bytes, the loop of `make_frame` copies the range.
pub copy_bytes_lem :
    (bytes : List ℕ) (start rounds : ℕ)
    → start + rounds ≤ length bytes
    → copy_bytes bytes start rounds ≡ take rounds (drop start bytes)
unfolding copy_bytes
copy_bytes_lem bytes start zero h = refl
copy_bytes_lem [] start (suc rounds) h = absurd (omega (arith, h))
copy_bytes_lem (x ∷ xs) zero (suc rounds) h =
    ap (◌∷◌ x) (copy_bytes-cons x xs 0 rounds ∙ copy_bytes_lem xs 0 rounds (omega (arith, h)))
copy_bytes_lem (x ∷ xs) (suc start) (suc rounds) h =
    copy_bytes-cons x xs start (suc rounds)
    ∙ copy_bytes_lem xs start (suc rounds) (omega (arith, h))
