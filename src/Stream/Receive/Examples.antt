-- ===== src/Stream/Receive/Examples.antt =====
-- Runs of a receiving stream, and its theorems at concrete inputs.
use flow_q.Prelude.{
  ℕ, ◌+◌, ◌≤◌, ◌<◌, get_elem?, ◌≡◌, refl, arith, List, [], ◌∷◌, length, Bool, true, false, none,
  some, map, ltb, if◌then◌else◌,
}
use flow_q.Frame.{StreamFrame, ResetStreamFrame}
use flow_q.Stream.Receive.{
  fresh_receive_state, closed, largest_of, range_before, byte_at, conflicts, split_first, find_last,
  set, write_bytes, write_ranges, merged_bytes, buffer_new_suffix, find_range, erase_range,
  drain_rounds, drain_contiguous,
}
use flow_q.Stream.Receive.Calls.{answered, accept, receive, reset}
use flow_q.Stream.Receive.Events.{
  Event, arrived, stopped, raised, record_receive, react, run, opened, covered, IsCoveredPrefix,
}
use flow_q.Stream.Receive.Reassembly.{run-IsCoveredPrefix}
use flow_q.Stream.Receive.Accepted.{IsPart}
use flow_q.Stream.Receive.Limits.{IsWithin, run-IsWithin}
use flow_q.Stream.Receive.Outcome.{run_any_order, run-whole}

-- Byte `i` of the stream is `10 + i`; it has eight bytes.
abbrev content : ℕ → ℕ
content i = 10 + i

abbrev part : ℕ → Bool → List ℕ → StreamFrame
part offset fin bytes = record {
  stream_id = 4;
  offset = offset;
  offset_present = true;
  length_present = true;
  fin = fin;
  bytes = bytes;
}

abbrev front : StreamFrame
front = part 0 false (10 ∷ 11 ∷ 12 ∷ 13 ∷ 14 ∷ 15 ∷ [])

abbrev back : StreamFrame
back = part 5 true (15 ∷ 16 ∷ 17 ∷ [])

abbrev backwards : List StreamFrame
backwards = back ∷ front ∷ []

abbrev forwards : List StreamFrame
forwards = front ∷ back ∷ []

abbrev reset_at : ℕ → ResetStreamFrame
reset_at final_size = record { stream_id = 4; application_error_code = 7; final_size = final_size }

-- The overlapping frames in the wrong order.
whole_stream :
    (run (opened 8) (map arrived backwards)).output ≡ 10 ∷ 11 ∷ 12 ∷ 13 ∷ 14 ∷ 15 ∷ 16 ∷ 17 ∷ []
unfolding run react record_receive opened fresh_receive_state closed range_before byte_at conflicts
    split_first find_last set write_bytes write_ranges merged_bytes buffer_new_suffix find_range
    erase_range drain_rounds drain_contiguous answered accept receive
whole_stream = refl

-- A byte that differs from the one received is refused.
conflict_refused :
    (run (opened 8) (arrived back ∷ arrived (part 4 false (14 ∷ 99 ∷ [])) ∷ [])).accepted
    ≡ back ∷ []
unfolding run react record_receive opened fresh_receive_state closed range_before byte_at conflicts
    split_first find_last set write_bytes write_ranges merged_bytes buffer_new_suffix find_range
    erase_range drain_rounds drain_contiguous answered accept receive
conflict_refused = refl

-- A FIN below bytes that are there is accepted, and the stream does not close any more.
fin_below_accepted :
    (run (opened 8) (arrived front ∷ arrived (part 0 true (10 ∷ [])) ∷ [])).state.final_size
    ≡ some 1
unfolding run react record_receive opened fresh_receive_state closed range_before byte_at conflicts
    split_first find_last set write_bytes write_ranges merged_bytes buffer_new_suffix find_range
    erase_range drain_rounds drain_contiguous answered accept receive
fin_below_accepted = refl

-- A reset with a final size below them is refused.
reset_below_refused :
    (run (opened 8) (arrived front ∷ stopped (reset_at 1) ∷ [])).state.reset_received ≡ false
unfolding run react record_receive opened fresh_receive_state closed range_before byte_at conflicts
    split_first find_last set write_bytes write_ranges merged_bytes buffer_new_suffix find_range
    erase_range drain_rounds drain_contiguous answered accept receive reset largest_of
reset_below_refused = refl

abbrev events : List Event
events = arrived back ∷ raised 20 ∷ arrived front ∷ stopped (reset_at 8) ∷ arrived front ∷ []

run-IsCoveredPrefix_example :
    IsCoveredPrefix content (run (opened 8) events).accepted (run (opened 8) events).output
run-IsCoveredPrefix_example = run-IsCoveredPrefix content 8 events (
  (refl, (refl, (refl, tt))),
  (
    (refl, (refl, (refl, (refl, (refl, (refl, tt)))))),
    ((refl, (refl, (refl, (refl, (refl, (refl, tt)))))), tt),
  ),
)

back-IsPart : IsPart content 8 back
back-IsPart = ((refl, (refl, (refl, tt))), omega arith, refl)

front-IsPart : IsPart content 8 front
front-IsPart = ((refl, (refl, (refl, (refl, (refl, (refl, tt)))))), omega arith, refl)

same_cover : (i : ℕ) → covered backwards i ≡ covered forwards i
same_cover i = ground arith

all_cover : (i : ℕ) → i < 8 → covered backwards i ≡ true
all_cover i h = ground (arith, h)

run_any_order_example :
    (run (opened 8) (map arrived backwards)).output ≡ (run (opened 9) (map arrived forwards)).output
run_any_order_example =
    run_any_order content 8 8 9 backwards forwards (omega arith) (omega arith) (omega arith)
      (back-IsPart, (front-IsPart, tt)) (front-IsPart, (back-IsPart, tt)) same_cover

run-whole_example :
    (closed (run (opened 8) (map arrived backwards)).state ≡ true)
    × (length (run (opened 8) (map arrived backwards)).output ≡ 8)
    × ((i : ℕ)
        → get_elem? (run (opened 8) (map arrived backwards)).output i
          ≡ (if ltb i 8 then some (content i) else none))
run-whole_example =
    run-whole content 8 8 backwards (omega arith) (omega arith) (back-IsPart, (front-IsPart, tt))
      all_cover refl

run-IsWithin_example :
    IsWithin (run (opened 8) events).state
    × (length (run (opened 8) events).state.delivered ≤ (run (opened 8) events).state.max_data)
run-IsWithin_example = run-IsWithin 8 events
