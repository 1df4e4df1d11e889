-- ===== src/Stream/ReceiveSet/Examples.antt =====
-- Runs of the receiving streams of a client that allows its peer one stream of each direction.
use flow_q.Prelude.{ℕ, ◌≡◌, refl, true, false, [], ◌∷◌, none, if◌then◌else◌}
use flow_q.Frame.{StreamFrame, ResetStreamFrame}
use flow_q.Stream.SendSet.{client, classify_stream_id}
use flow_q.Stream.Receive.{fresh_receive_state, closed, largest_of}
use flow_q.Stream.Receive.Calls.{answered, receive, reset, raise_max_data}
use flow_q.Stream.ReceiveSet.{
  StreamReceiveSet, fresh_receive_set, find_stream, stream_for, is_past_limit, ensure_stream,
  refused_stream, stored, receive_frame, reset_stream_of, raise_max_data_of,
}
use flow_q.Stream.ReceiveSet.Streams.{found_after, is_refused, streams_apart}

abbrev none_open : StreamReceiveSet
none_open =
    fresh_receive_set 8 client (record { bidirectional_limit = 1; unidirectional_limit = 1 })

abbrev first_bytes : ℕ → StreamFrame
first_bytes id = record {
  stream_id = id;
  offset = 0;
  offset_present = false;
  length_present = true;
  fin = false;
  bytes = 7 ∷ [];
}

abbrev stop_of : ℕ → ResetStreamFrame
stop_of id = record { stream_id = id; application_error_code = 1; final_size = 0 }

-- Stream 5 is the second bidirectional stream of the server.
frame_past_limit : (receive_frame none_open (first_bytes 5)).1 ≡ refused_stream
unfolding receive_frame ensure_stream find_stream is_past_limit classify_stream_id fresh_receive_set
frame_past_limit = refl

-- A reset opens it all the same.
reset_past_limit : (reset_stream_of none_open (stop_of 5)).1.error ≡ none
unfolding reset_stream_of stream_for find_stream fresh_receive_set fresh_receive_state reset
    answered closed largest_of
reset_past_limit = refl

-- Stream 5 again, beside a reset and a credit for others.
streams_apart_example :
    (receive_frame none_open (first_bytes 5) ≡ (
      if is_refused none_open 5
      then (none_open, refused_stream)
      else stored none_open 5 (receive (stream_for none_open 5) (first_bytes 5))))
    × (find_stream 9
          (stored none_open 5 (receive (stream_for none_open 5) (first_bytes 5))).0.streams
        ≡ found_after none_open 5 (receive (stream_for none_open 5) (first_bytes 5)).0 9)
    × (find_stream 9 (reset_stream_of none_open (stop_of 9)).0.streams
        ≡ found_after none_open 9 (reset (stream_for none_open 9) (stop_of 9)).0 9)
    × (find_stream 9 (raise_max_data_of none_open 4 20).streams
        ≡ found_after none_open 4 (raise_max_data (stream_for none_open 4) 20) 9)
streams_apart_example = streams_apart none_open (first_bytes 5) (stop_of 9) 4 20 9
