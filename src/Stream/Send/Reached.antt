-- ===== src/Stream/Send/Reached.antt =====
-- The states that a sending stream reaches: any calls, in any order, from the constructor on.
use flow_q.Prelude.{ℕ, ◌≤◌, List, length, Result, ok, err, u64_max, some, Option, none}
use flow_q.Frame.{StopSendingFrame, MaxStreamDataFrame}
use flow_q.Stream.Send.{
  StreamSendRange, StreamSendResult, StreamSendState, fresh_send_state, append, finish, pop_frame,
  on_acked, on_lost, update_max_data, receive_max_stream_data, stop_sending,
}
use flow_q.Stream.Send.Invariant.{
  IsSound, IsSoundResult, fresh_send_state-IsSound, append-IsSound, finish-IsSound,
  stop_sending-IsSound, update_max_data-IsSound, receive_max_stream_data-IsSound, on_acked-IsSound,
  on_lost-IsSound,
}
use flow_q.Stream.Send.Popped.{IsPopped, pop_frame-IsPopped}

-- The state behind a call that may answer with an error.
abbrev kept : StreamSendState → Result StreamSendState → StreamSendState
kept s (ok s') = s'
kept s (err e) = s

-- One call, from the state before it to the state behind it. The bytes of one buffer fit a uint64_t.
pub data Step : StreamSendState → StreamSendState → Type 0 where
  appended :
      (s : StreamSendState) (more : List ℕ)
      → length more ≤ u64_max
      → Step s (kept s (append s more))
  finished : (s : StreamSendState) → Step s (kept s (finish s))
  popped : (s : StreamSendState) (most : ℕ) → Step s (pop_frame s most).0
  confirmed : (s : StreamSendState) (range : StreamSendRange) → Step s (on_acked s range)
  missed : (s : StreamSendState) (range : StreamSendRange) → Step s (on_lost s range)
  credited : (s : StreamSendState) (limit : ℕ) → Step s (update_max_data s limit)
  credited_by :
      (s : StreamSendState) (frame : MaxStreamDataFrame) → Step s (receive_max_stream_data s frame)
  stopped :
      (s : StreamSendState) (frame : StopSendingFrame) → Step s (kept s (stop_sending s frame))

pub data Reachable : StreamSendState → Type 0 where
  start : (stream_id max_data : ℕ) → Reachable (fresh_send_state stream_id max_data)
  then : {s s' : StreamSendState} → Reachable s → Step s s' → Reachable s'

kept-IsSound :
    (s : StreamSendState) (answer : Result StreamSendState)
    → IsSound s
    → IsSoundResult answer
    → IsSound (kept s answer)
kept-IsSound s (ok s') before after = after
kept-IsSound s (err e) before after = before

IsPopped-IsSound :
    (s : StreamSendState) (most : ℕ) (answer : StreamSendState × Option StreamSendResult)
    → IsPopped s most answer
    → IsSound answer.0
IsPopped-IsSound s most (s', none) sound = sound
IsPopped-IsSound s most (s', some result) (sound, faithful) = sound

step-IsSound : {s s' : StreamSendState} → Step s s' → IsSound s → IsSound s'
step-IsSound (appended s more short) sound =
    kept-IsSound s (append s more) sound (append-IsSound s more short sound)
step-IsSound (finished s) sound = kept-IsSound s (finish s) sound (finish-IsSound s sound)
step-IsSound (popped s most) sound =
    IsPopped-IsSound s most (pop_frame s most) (pop_frame-IsPopped s most sound)
step-IsSound (confirmed s range) sound = on_acked-IsSound s range sound
step-IsSound (missed s range) sound = on_lost-IsSound s range sound
step-IsSound (credited s limit) sound = update_max_data-IsSound s limit sound
step-IsSound (credited_by s frame) sound = receive_max_stream_data-IsSound s frame sound
step-IsSound (stopped s frame) sound =
    kept-IsSound s (stop_sending s frame) sound (stop_sending-IsSound s frame sound)

-- After any calls in any order, with any ranges reported lost or acknowledged: no more was sent
-- than the stream has bytes and the peer gave credit; every range recorded as lost or acknowledged
-- was sent; and a FIN was sent, or stands in such a range, only at the end of a finished stream.
pub Reachable-IsSound : {s : StreamSendState} → Reachable s → IsSound s
Reachable-IsSound (start stream_id max_data) = fresh_send_state-IsSound stream_id max_data
Reachable-IsSound (then before step) = step-IsSound step (Reachable-IsSound before)
