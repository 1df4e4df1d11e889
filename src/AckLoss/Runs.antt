-- ===== src/AckLoss/Runs.antt =====
-- The runs between the two loops of `to_ack_frame`: they hold the numbers of the tracker, and are
-- apart from one another by at least one number that was not received.
use flow_q.Prelude.{ℕ, ◌+◌, ◌-◌, ◌≤◌, ◌≡◌, refl, ◌∙◌, arith, Bool-cases, inl, inr}
use flow_q.Prelude.{Bool, false, List, [], ◌∷◌, ltb, ◌==◌, ◌||◌, IsU64, add64, sub64}
use flow_q.Prelude.{some}
use flow_q.AckLoss.{
  contains, insert_run, append_ack_range, expand_range, expand_ranges, ack_runs, ack_ranges,
}
use flow_q.AckLoss.Sets.{Below, within, contains-insert_run}

abbrev pub in_runs : ℕ → List (ℕ × ℕ) → Bool
in_runs n [] = false
in_runs n ((low, high) ∷ runs) = within low high n || in_runs n runs

-- Below `bound` and apart from it, with each run below the one before.
abbrev pub Apart : ℕ → List (ℕ × ℕ) → Type 0
Apart bound [] = Unit
Apart bound ((low, high) ∷ runs) = (low ≤ high) × (high + 2 ≤ bound) × Apart low runs

pub in_runs-ack_runs :
    (n low high : ℕ) (rest : List ℕ)
    → low ≤ high
    → Below low rest
    → in_runs n (ack_runs low high rest) ≡ (within low high n || contains n rest)
unfolding ack_runs contains
in_runs-ack_runs n low high [] h b = refl
in_runs-ack_runs n low high (packet ∷ rest) h b = ground (
  arith,
  in_runs-ack_runs n packet high rest (omega arith) b.1,
  in_runs-ack_runs n packet packet rest (omega arith) b.1,
)

-- The first run ends at the highest number; all others are apart.
abbrev pub RunsFrom : ℕ → List (ℕ × ℕ) → Type 0
RunsFrom high [] = ⊥
RunsFrom high ((low, top) ∷ runs) = (top ≡ high) × (low ≤ top) × Apart low runs

RunsFrom-Apart :
    (bound high : ℕ) (runs : List (ℕ × ℕ))
    → high + 2 ≤ bound
    → RunsFrom high runs
    → Apart bound runs
RunsFrom-Apart bound high [] h r = tt
RunsFrom-Apart bound high ((low, top) ∷ runs) h r = (r.1, omega arith, r.2)

pub ack_runs-RunsFrom :
    (low high : ℕ) (rest : List ℕ)
    → low ≤ high
    → Below low rest
    → RunsFrom high (ack_runs low high rest)
unfolding ack_runs
ack_runs-RunsFrom low high [] h b = (refl, h, tt)
ack_runs-RunsFrom low high (packet ∷ rest) h b = elim (Bool-cases (packet + 1 == low)) [
  | inl joined ↦ rw joined (ack_runs-RunsFrom packet high rest (omega arith) b.1)
  | inr split ↦ rw split (
    refl,
    h,
    RunsFrom-Apart low packet (ack_runs packet packet rest) (ground arith)
        (ack_runs-RunsFrom packet packet rest (omega arith) b.1),
  )
]

pub append_ack_range_lem :
    (packets : List ℕ) (low high : ℕ)
    → low ≤ high
    → append_ack_range packets low high ≡ some (insert_run (high - low) low packets)
unfolding append_ack_range
append_ack_range_lem packets low high h = ground arith

expand_range_lem :
    (bound low high : ℕ) (packets : List ℕ)
    → IsU64 bound
    → low ≤ high
    → high + 2 ≤ bound
    → expand_range bound (record { gap = sub64 (sub64 bound high) 2; length = high - low }) packets
      ≡ some (low, insert_run (high - low) low packets)
unfolding expand_range
expand_range_lem bound low high packets h order apart =
    let gap : add64 (sub64 (sub64 bound high) 2) 2 ≡ bound - high = omega arith in
    let upper : bound - (bound - high) ≡ high = omega arith in
    let lower : high - (high - low) ≡ low = omega arith in
    let reached : ltb bound (bound - high) ≡ false = ground arith in
    let fits : ltb high (high - low) ≡ false = ground arith in
    rw (gap, upper)
      (rw (reached, fits, lower) (rw (append_ack_range_lem packets low high order) refl))

-- The receiver of the frame gets the runs back from the gaps and lengths.
pub contains-expand_ranges :
    (n bound : ℕ) (runs : List (ℕ × ℕ)) (packets : List ℕ)
    → IsU64 bound
    → Apart bound runs
    → contains n (expand_ranges bound (ack_ranges bound runs) packets)
      ≡ (in_runs n runs || contains n packets)
unfolding ack_ranges expand_ranges
contains-expand_ranges n bound [] packets h a = refl
contains-expand_ranges n bound ((low, high) ∷ runs) packets h a =
    rw (expand_range_lem bound low high packets h a.0 a.1, expand_ranges)
      (contains-expand_ranges n low runs (insert_run (high - low) low packets) (omega arith) a.2
        ∙ rw (contains-insert_run n (high - low) low packets) (ground arith))
