-- ===== src/Stream/Send/Examples.antt =====
-- Runs of a sending stream, and its theorems at concrete inputs.
use flow_q.Prelude.{◌≡◌, refl, arith, [], ◌∷◌, true, false, some}
use flow_q.Stream.Send.{
  StreamSendRange, StreamSendState, fresh_send_state, append, finish, pop_frame, pop_ranges,
  pop_new, pop_unsent, pop_lost, pop_part, make_frame, copy_bytes, on_lost, is_acked,
  valid_sent_range,
}
use flow_q.Stream.Send.Invariant.{IsSound}
use flow_q.Stream.Send.Popped.{IsPopped, pop_frame-IsPopped}
use flow_q.Stream.Send.Reached.{
  Reachable, start, then, appended, finished, popped, missed, Reachable-IsSound,
}
use flow_q.Stream.Send.Drained.{sent_in, sent_in-drains}
use flow_q.Stream.Send.Repaired.{pop_frame-on_lost}

-- Stream 4 with five bytes and a FIN to send, under a credit of 10.
abbrev full : StreamSendState
full = record (fresh_send_state 4 10) { bytes = 1 ∷ 2 ∷ 3 ∷ 4 ∷ 5 ∷ []; finished = true }

abbrev begun : StreamSendState
begun = (pop_frame full 3).0

abbrev front : StreamSendRange
front = record { offset = 0; length = 3; fin = false }

first_frame : (pop_frame full 3).1 ≡ some (make_frame full front false)
unfolding fresh_send_state pop_frame pop_ranges pop_new pop_unsent make_frame copy_bytes
first_frame = refl

last_frame :
    (pop_frame begun 3).1
    ≡ some (make_frame full (record { offset = 3; length = 2; fin = true }) false)
unfolding fresh_send_state pop_frame pop_ranges pop_new pop_unsent make_frame copy_bytes
last_frame = refl

-- A lost range that does not fit is cut; its rest stays lost.
abbrev cut_range : StreamSendRange
cut_range = record { offset = 0; length = 2; fin = false }

lost_and_cut : (pop_frame (on_lost begun front) 2).1 ≡ some (make_frame full cut_range true)
unfolding fresh_send_state pop_frame pop_ranges pop_new pop_unsent pop_lost pop_part make_frame
    copy_bytes on_lost is_acked valid_sent_range
lost_and_cut = refl

-- The same stream by calls: appended to, finished, sent from, and a loss reported.
abbrev filled : StreamSendState
filled = record (fresh_send_state 4 10) { bytes = 1 ∷ 2 ∷ 3 ∷ 4 ∷ 5 ∷ [] }

filled-Reachable : Reachable filled
unfolding fresh_send_state append
filled-Reachable =
    then (start 4 10) (appended (fresh_send_state 4 10) (1 ∷ 2 ∷ 3 ∷ 4 ∷ 5 ∷ []) (omega arith))

full-Reachable : Reachable full
unfolding fresh_send_state finish
full-Reachable = then filled-Reachable (finished filled)

Reachable-IsSound_example : IsSound (on_lost begun front)
Reachable-IsSound_example =
    Reachable-IsSound (then (then full-Reachable (popped full 3)) (missed begun front))

lost_again-IsSound : IsSound (on_lost begun front)
lost_again-IsSound =
    Reachable-IsSound (then (then full-Reachable (popped full 3)) (missed begun front))

pop_frame-IsPopped_example : IsPopped (on_lost begun front) 2 (pop_frame (on_lost begun front) 2)
pop_frame-IsPopped_example = pop_frame-IsPopped (on_lost begun front) 2 lost_again-IsSound

sent_in-drains_example : sent_in 5 full 3 ≡ 1 ∷ 2 ∷ 3 ∷ 4 ∷ 5 ∷ []
unfolding fresh_send_state
sent_in-drains_example =
    sent_in-drains 5 3 full refl refl (omega arith) (omega arith) (omega arith) (omega arith)

pop_frame-on_lost_example :
    (pop_frame (on_lost begun front) 3).1 ≡ some (make_frame begun front true)
unfolding fresh_send_state pop_frame pop_ranges pop_new pop_unsent valid_sent_range is_acked
pop_frame-on_lost_example = pop_frame-on_lost begun front 3 refl refl refl refl refl (omega arith)

-- The acknowledgement of three bytes, and a report of the last two of them.
abbrev front_end : StreamSendRange
front_end = record { offset = 1; length = 2; fin = false }
