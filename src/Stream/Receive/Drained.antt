-- ===== src/Stream/Receive/Drained.antt =====
-- `drain_contiguous`: it hands out all that is ready, and keeps every byte.
use flow_q.Prelude.{ℕ, zero, suc, ◌+◌, ◌-◌, ◌≡◌, inl, inr, refl, arith, none, some}
use flow_q.Prelude.{
  List, [], ◌∷◌, ◌++◌, length, length-append, get_elem?, ltb, if◌then◌else◌, ◌∙◌, ap, sym, subst,
  le-cases,
}
use mathlib.Core.List.{append-nil}
use flow_q.Stream.Receive.{
  Pending, StreamReceiveState, byte_at, find_range, erase_range, drain_rounds, drain_contiguous,
}
use flow_q.Stream.Receive.Layout.{LaidOut, held, LaidOut-weaken, range_before-held}

-- The bytes delivered end where the next are due, and nothing that is due is pending.
pub record IsAssembled (s : StreamReceiveState) : Type 0 where
  pub counted : s.next_offset ≡ length s.delivered
  pub laid : LaidOut (suc s.next_offset) s.pending

pub byte_at_lem :
    (s : StreamReceiveState) (low i : ℕ)
    → LaidOut low s.pending
    → byte_at s i
      ≡ (if ltb i (length s.delivered) then get_elem? s.delivered i else held s.pending i)
unfolding byte_at
byte_at_lem s low i laid =
    ap (λ other. if ltb i (length s.delivered) then get_elem? s.delivered i else other)
      (range_before-held low s.pending i laid)

find_range-none : (n : ℕ) (ranges : Pending) → LaidOut (suc n) ranges → find_range n ranges ≡ none
unfolding find_range
find_range-none n [] laid = refl
find_range-none n ((key, bytes) ∷ ranges) (lo, full, rest) = ground (
  arith,
  find_range-none n ranges
      (LaidOut-weaken (suc (key + length bytes)) (suc n) ranges (omega (arith, lo)) rest),
)

get_elem?-append :
    (xs ys : List ℕ) (i : ℕ)
    → get_elem? (xs ++ ys) i
      ≡ (if ltb i (length xs) then get_elem? xs i else get_elem? ys (i - length xs))
get_elem?-append [] ys i = ground arith
get_elem?-append (x ∷ xs) ys zero = ground arith
get_elem?-append (x ∷ xs) ys (suc i) = ground (arith, get_elem?-append xs ys i)

-- The state and the output of a drain of `s`.
pub record IsDrained (s s' : StreamReceiveState) (output : List ℕ) : Type 0 where
  pub assembled : IsAssembled s'
  pub delivered_more : s'.delivered ≡ s.delivered ++ output
  pub same_bytes : (i : ℕ) → byte_at s' i ≡ byte_at s i
  pub same_limit : s'.max_data ≡ s.max_data
  pub same_final : s'.final_size ≡ s.final_size
  pub same_reset : s'.reset_received ≡ s.reset_received

-- Nothing is due.
drain_idle :
    (rounds : ℕ) (s : StreamReceiveState) (output : List ℕ)
    → LaidOut (suc s.next_offset) s.pending
    → drain_rounds rounds s output ≡ (s, output)
unfolding drain_rounds
drain_idle zero s output laid = refl
drain_idle (suc rounds) s output laid =
    rw (find_range-none s.next_offset s.pending laid, drain_rounds) refl

-- The state behind the first range, if it is due.
abbrev advanced : StreamReceiveState → List ℕ → Pending → StreamReceiveState
advanced s bytes ranges = record s {
  delivered = s.delivered ++ bytes;
  next_offset = s.next_offset + length bytes;
  pending = ranges;
}

advanced-IsDrained :
    (s : StreamReceiveState) (key : ℕ) (bytes : List ℕ) (ranges : Pending)
    → s.next_offset ≡ length s.delivered
    → key ≡ s.next_offset
    → LaidOut key ((key, bytes) ∷ ranges)
    → IsDrained (record s { pending = (key, bytes) ∷ ranges }) (advanced s bytes ranges) bytes
advanced-IsDrained s key bytes ranges counted due (lo, full, rest) = record {
  assembled = record {
    counted = omega (arith, counted, length-append s.delivered bytes);
    laid = LaidOut-weaken (suc (key + length bytes)) _ ranges (omega (arith, due)) rest;
  };
  delivered_more = refl;
  same_bytes = λ i.
      byte_at_lem (advanced s bytes ranges) (suc (key + length bytes)) i rest
      ∙ ground (
        arith,
        length-append s.delivered bytes,
        get_elem?-append s.delivered bytes i,
        counted,
        due,
        ap (get_elem? bytes) (ap (λ (t : ℕ). i - t) (due ∙ counted)),
      )
      ∙ sym (byte_at_lem (record s { pending = (key, bytes) ∷ ranges }) key i (lo, full, rest));
  same_limit = refl;
  same_final = refl;
  same_reset = refl;
}

drain_step :
    (rounds : ℕ) (s : StreamReceiveState) (output bytes : List ℕ)
    → find_range s.next_offset s.pending ≡ some bytes
    → drain_rounds (suc rounds) s output
      ≡ drain_rounds rounds
          (advanced s bytes (erase_range s.next_offset s.pending))
          (output ++ bytes)
unfolding drain_rounds
drain_step rounds s output bytes e = rw (e, drain_rounds) refl

front_found :
    (n key : ℕ) (bytes : List ℕ) (ranges : Pending)
    → key ≡ n
    → (find_range n ((key, bytes) ∷ ranges) ≡ some bytes)
      × (erase_range n ((key, bytes) ∷ ranges) ≡ ranges)
unfolding find_range erase_range
front_found n key bytes ranges e = (ground (arith, e), ground (arith, e))

-- One round takes the first range, and the next finds nothing.
drain_due :
    (s : StreamReceiveState) (key : ℕ) (bytes : List ℕ) (ranges : Pending)
    → key ≡ s.next_offset
    → LaidOut (suc (key + length bytes)) ranges
    → drain_contiguous (record s { pending = (key, bytes) ∷ ranges })
      ≡ (advanced s bytes ranges, bytes)
unfolding drain_contiguous
drain_due s key bytes ranges due laid =
    let (found, erased) = front_found s.next_offset key bytes ranges due in
    drain_step (length ranges) (record s { pending = (key, bytes) ∷ ranges }) [] bytes found
    ∙ ap (λ left. drain_rounds (length ranges) (advanced s bytes left) bytes) erased
    ∙ drain_idle (length ranges) (advanced s bytes ranges) bytes
        (LaidOut-weaken (suc (key + length bytes)) _ ranges (omega (arith, due)) laid)

idle-IsDrained :
    (s : StreamReceiveState)
    → s.next_offset ≡ length s.delivered
    → LaidOut (suc s.next_offset) s.pending
    → IsDrained s s []
idle-IsDrained s counted laid = record {
  assembled = record { counted = counted; laid = laid };
  delivered_more = sym (append-nil s.delivered);
  same_bytes = λ i. refl;
  same_limit = refl;
  same_final = refl;
  same_reset = refl;
}

pub drain_contiguous-IsDrained :
    (s : StreamReceiveState) (pending : Pending)
    → s.next_offset ≡ length s.delivered
    → LaidOut s.next_offset pending
    → IsDrained
        (record s { pending = pending })
        (drain_contiguous (record s { pending = pending })).0
        (drain_contiguous (record s { pending = pending })).1
unfolding drain_contiguous drain_rounds
drain_contiguous-IsDrained s [] counted laid = idle-IsDrained (record s { pending = [] }) counted tt
drain_contiguous-IsDrained s ((key, bytes) ∷ ranges) counted (lo, full, rest) =
    let before : StreamReceiveState = record s { pending = (key, bytes) ∷ ranges } in
    elim (le-cases (suc s.next_offset) key) [
      | inl later ↦
          let laid : LaidOut (suc s.next_offset) ((key, bytes) ∷ ranges) = (later, full, rest) in
          subst (λ (d : StreamReceiveState × List ℕ). IsDrained before d.0 d.1)
            (sym (drain_idle (suc (length ranges)) before [] laid))
            (idle-IsDrained before counted laid)
      | inr here ↦
          let due : key ≡ s.next_offset = omega (arith, lo, here) in
          subst (λ (d : StreamReceiveState × List ℕ). IsDrained before d.0 d.1)
            (sym (drain_due s key bytes ranges due rest))
            (advanced-IsDrained s key bytes ranges counted due (omega arith, full, rest))
    ]
