-- ===== src/Stream/SendSet/Examples.antt =====
-- Runs of the sending streams of a connection, and their theorems at concrete inputs.
use flow_q.Prelude.{◌≡◌, refl, arith, [], ◌∷◌, true, some, none}
use flow_q.Stream.Send.{StreamSendState, fresh_send_state, append, update_max_data, stream_error}
use flow_q.Stream.Send.Reached.{Reachable, start, then, appended, Reachable-IsSound}
use flow_q.Stream.SendSet.{
  StreamSendSet, fresh_send_set, find, store, state_for, limit_for, classify_stream_id,
  mark_streams_blocked, ensure_state_for, append_to, finish_stream, pop_frames, update_max_data_of,
}
use flow_q.Stream.SendSet.Scheduled.{IsSchedule, pop_frames-IsSchedule}
use flow_q.Stream.SendSet.Opened.{LeavesOut, opening-LeavesOut}

-- One bidirectional stream may be opened, with a credit of 2 bytes.
abbrev opened : StreamSendSet
opened = fresh_send_set 2 (record { bidirectional_limit = 1; unidirectional_limit = 0 })

abbrev filled : StreamSendState
filled = record (fresh_send_state 0 2) { bytes = 7 ∷ 8 ∷ 9 ∷ [] }

abbrev one_stream : StreamSendSet
one_stream = record opened { streams = (0, filled) ∷ [] }

first_opened : append_to opened 0 (7 ∷ 8 ∷ 9 ∷ []) ≡ (one_stream, none)
unfolding append_to ensure_state_for find fresh_send_set limit_for classify_stream_id append store
    fresh_send_state
first_opened = refl

-- Stream 4 is the second bidirectional stream.
second_refused : append_to one_stream 4 (1 ∷ []) ≡ (
  record one_stream { bidi_streams_blocked = true },
  some (stream_error "peer stream count limit exceeded"),
)
unfolding append_to ensure_state_for find fresh_send_set limit_for classify_stream_id
    mark_streams_blocked
second_refused = refl

-- A credit for stream 4 creates it, and the limit no longer stops the same call.
second_credited : (append_to (update_max_data_of one_stream 4 9) 4 (1 ∷ [])).1 ≡ none
unfolding append_to ensure_state_for find fresh_send_set append store fresh_send_state
    update_max_data_of state_for update_max_data
second_credited = refl

filled-Reachable : Reachable filled
unfolding fresh_send_state append
filled-Reachable = then (start 0 2) (appended (fresh_send_state 0 2) (7 ∷ 8 ∷ 9 ∷ []) (omega arith))

pop_frames-IsSchedule_example : IsSchedule 3 (pop_frames one_stream (0 ∷ 4 ∷ 0 ∷ []) 3 100)
pop_frames-IsSchedule_example =
    pop_frames-IsSchedule one_stream (0 ∷ 4 ∷ 0 ∷ []) 3 100 (Reachable-IsSound filled-Reachable, tt)

opening-LeavesOut_example :
    LeavesOut 0 4 (append_to one_stream 0 (1 ∷ [])) × LeavesOut 0 4 (finish_stream one_stream 0)
unfolding fresh_send_set find
opening-LeavesOut_example = opening-LeavesOut one_stream 0 4 (1 ∷ []) refl (omega arith)
