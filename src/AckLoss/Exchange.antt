-- ===== src/AckLoss/Exchange.antt =====
-- What one endpoint received is what the other reads from its ACK frame.
use flow_q.Prelude.{ℕ, ◌+◌, ◌-◌, ◌≡◌, refl, ◌∙◌, sym, ap, arith, subst}
use flow_q.Prelude.{true, false, List, [], ◌∷◌, ltb, IsU64, All}
use flow_q.AckLoss.{
  ReceivedPacketTracker, contains, insert, insert_run, observe, descending, ack_runs, frame_of_runs,
  frame_of_descending, to_ack_frame, expand_ack_frame,
}
use flow_q.AckLoss.Sets.{
  Below, IsAscending, IsDescending, contains-insert, contains-insert_run, contains-descending,
  insert-IsAscending, descending-IsDescending,
}
use flow_q.AckLoss.Runs.{
  in_runs, RunsFrom, in_runs-ack_runs, ack_runs-RunsFrom, contains-expand_ranges,
  append_ack_range_lem,
}

contains-frame_of_runs :
    (n delay high : ℕ) (runs : List (ℕ × ℕ))
    → IsU64 high
    → RunsFrom high runs
    → contains n (expand_ack_frame (frame_of_runs delay runs)) ≡ in_runs n runs
unfolding expand_ack_frame frame_of_runs contains
contains-frame_of_runs n delay high [] h r = absurd r
contains-frame_of_runs n delay high ((low, top) ∷ runs) h r =
    let bottom : top - (top - low) ≡ low = omega (arith, r.1) in
    let whole : low + (top - low) ≡ top = omega (arith, r.1) in
    let fits : ltb top (top - low) ≡ false = ground arith in
    rw (fits, bottom)
      (rw (append_ack_range_lem [] low top r.1) (
        rw bottom (
          contains-expand_ranges n low runs (insert_run (top - low) low [])
            (omega (arith, ap (λ (t : ℕ). t) r.0, r.1)) r.2
          ∙ rw (contains-insert_run n (top - low) low [], whole) (ground arith))))

insert-IsU64 : (n : ℕ) (xs : List ℕ) → IsU64 n → All IsU64 xs → All IsU64 (insert n xs)
unfolding insert
insert-IsU64 n [] h all = (h, tt)
insert-IsU64 n (x ∷ xs) h all = ground (arith, insert-IsU64 n xs)

-- `observe` keeps the set ascending and its numbers in range, and adds the number.
abbrev pub observe_all : List ℕ → ReceivedPacketTracker
observe_all [] = record { packets = [] }
observe_all (n ∷ ns) = (observe (observe_all ns) n).0

contains-observe_all : (m : ℕ) (ns : List ℕ) → contains m (observe_all ns).packets ≡ contains m ns
unfolding observe contains
contains-observe_all m [] = refl
contains-observe_all m (n ∷ ns) =
    contains-insert m n (observe_all ns).packets ∙ rw (contains-observe_all m ns)

observe_all-IsAscending : (ns : List ℕ) → IsAscending (observe_all ns).packets
unfolding observe
observe_all-IsAscending [] = tt
observe_all-IsAscending (n ∷ ns) = insert-IsAscending n _ (observe_all-IsAscending ns)

observe_all-IsU64 : (ns : List ℕ) → All IsU64 ns → All IsU64 (observe_all ns).packets
unfolding observe
observe_all-IsU64 [] h = tt
observe_all-IsU64 (n ∷ ns) h =
    insert-IsU64 n (observe_all ns).packets h.0 (observe_all-IsU64 ns h.1)

contains-frame_of_descending :
    (n delay high : ℕ) (rest : List ℕ)
    → IsU64 high
    → Below high rest
    → contains n (expand_ack_frame (frame_of_descending delay (high ∷ rest)))
      ≡ contains n (high ∷ rest)
unfolding frame_of_descending contains
contains-frame_of_descending n delay high rest h b =
    contains-frame_of_runs n delay high (ack_runs high high rest) h
      (ack_runs-RunsFrom high high rest (omega arith) b)
    ∙ in_runs-ack_runs n high high rest (omega arith) b
    ∙ ground arith

-- A set with an element has a highest one.
descending_filled :
    (m : ℕ) (xs : List ℕ)
    → contains m xs ≡ true
    → (high : ℕ) × (rest : List ℕ) × (descending xs [] ≡ high ∷ rest)
descending_filled m xs held = go (descending xs []) refl
  where
    go :
        (order : List ℕ)
        → descending xs [] ≡ order
        → (high : ℕ) × (rest : List ℕ) × (descending xs [] ≡ high ∷ rest)
    go [] e = absurd (unfold contains in cc (contains-descending m xs [], e, held))
    go (high ∷ rest) e = (high, rest, e)

descending-IsU64 :
    (xs seen : List ℕ) → All IsU64 xs → All IsU64 seen → All IsU64 (descending xs seen)
unfolding descending
descending-IsU64 [] seen all h = h
descending-IsU64 (x ∷ xs) seen all h = descending-IsU64 xs (x ∷ seen) all.1 (all.0, h)

-- The frame of a tracker that is not empty.
contains-expand-tracker :
    (n delay m : ℕ) (xs : List ℕ)
    → IsAscending xs
    → All IsU64 xs
    → contains m xs ≡ true
    → contains n (expand_ack_frame (frame_of_descending delay (descending xs []))) ≡ contains n xs
contains-expand-tracker n delay m xs up all held =
    let (high, rest, e) = descending_filled m xs held in
    let down = subst IsDescending e (descending-IsDescending xs up) in
    let small = subst (All IsU64) e (descending-IsU64 xs [] all tt) in
    rw e (contains-frame_of_descending n delay high rest small.0 down)
    ∙ ap (contains n) (sym e)
    ∙ contains-descending n xs []
    ∙ unfold contains in ground arith

-- After any packets were observed, the ACK frame acknowledges these packets and no others: what the
-- peer expands it to contains exactly the numbers observed.
pub contains-expand-to_ack_frame :
    (n delay first : ℕ) (others : List ℕ)
    → All IsU64 (first ∷ others)
    → contains n (expand_ack_frame (to_ack_frame (observe_all (first ∷ others)) delay))
      ≡ contains n (first ∷ others)
unfolding to_ack_frame contains
contains-expand-to_ack_frame n delay first others all =
    let seen = observe_all (first ∷ others) in
    contains-expand-tracker n delay first seen.packets (observe_all-IsAscending (first ∷ others))
      (observe_all-IsU64 (first ∷ others) all)
      (contains-observe_all first (first ∷ others) ∙ ground arith)
    ∙ contains-observe_all n (first ∷ others)
