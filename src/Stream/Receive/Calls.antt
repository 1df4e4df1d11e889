-- ===== src/Stream/Receive/Calls.antt =====
-- The calls of `stream_receive_state`: `receive`, `reset` and `update_max_data`.
use flow_q.Prelude.{ℕ, ◌+◌, ◌-◌, max, Bool, true, false, not, ◌&&◌, Option, none, some}
use flow_q.Prelude.{List, [], length, ltb, if◌then◌else◌, u64_max}
use flow_q.Prelude.{Error, flow_control_error, String}
use flow_q.Frame.{StreamFrame, ResetStreamFrame}
use flow_q.Stream.Send.{stream_error}
use flow_q.Stream.Receive.{
  StreamReceiveState, StreamReceiveResult, value_or, has_value, is_value, closed, largest_of,
  conflicts, buffer_new_suffix, drain_contiguous,
}

abbrev pub stream_flow_control_error : String → Error
stream_flow_control_error message = record { error_code = flow_control_error; message = message }

unfoldable pub answered : StreamReceiveState → List ℕ → Option Error → StreamReceiveResult
answered s bytes error = record {
  bytes = bytes;
  final_size_known = has_value s.final_size;
  final_size = value_or s.final_size 0;
  closed = closed s;
  error = error;
}

-- The state is left as it is, and the result has the error.
abbrev pub failed : StreamReceiveState → Error → StreamReceiveState × StreamReceiveResult
failed s error = (s, answered s [] (some error))

abbrev pub frame_offset : StreamFrame → ℕ
frame_offset frame = if frame.offset_present then frame.offset else 0

abbrev pub exceeds : ℕ → Option ℕ → Bool
exceeds end none = false
exceeds end (some final_size) = ltb final_size end

-- The part of `receive` behind its tests.
unfoldable pub accept :
    StreamReceiveState → ℕ → List ℕ → Option ℕ → StreamReceiveState × StreamReceiveResult
accept s offset bytes final_size =
    let (s', output) = drain_contiguous (record s {
      final_size = final_size;
      pending = buffer_new_suffix s.next_offset s.pending offset bytes;
    }) in
    (s', answered s' output none)

unfoldable pub receive : StreamReceiveState → StreamFrame → StreamReceiveState × StreamReceiveResult
receive s frame =
    let offset = frame_offset frame in
    let end = offset + length frame.bytes in
    let proposed : Option ℕ = if frame.fin then some end else s.final_size in
    if s.reset_received
    then failed s (stream_error "STREAM data received after RESET_STREAM")
    else if ltb (u64_max - length frame.bytes) offset
    then failed s (stream_error "STREAM frame offset overflows")
    else if ltb s.max_data end
    then failed s (stream_flow_control_error "STREAM data exceeds stream flow-control credit")
    else if frame.fin && has_value s.final_size && not (is_value s.final_size end)
    then failed s (stream_error "STREAM final size changed")
    else if exceeds end proposed
    then failed s (stream_error "STREAM data exceeds final size")
    else if conflicts s offset frame.bytes
    then failed s (stream_error "STREAM data conflicts with existing bytes")
    else accept s offset frame.bytes proposed

unfoldable pub reset :
    StreamReceiveState → ResetStreamFrame → StreamReceiveState × StreamReceiveResult
reset s frame =
    let s' : StreamReceiveState = record s {
      final_size = some frame.final_size;
      reset_received = true;
      reset_error_code = some frame.application_error_code;
    } in
    if has_value s.final_size && not (is_value s.final_size frame.final_size)
    then failed s (stream_error "RESET_STREAM final size conflicts with known final size")
    else if ltb frame.final_size (largest_of s.next_offset s.pending)
    then failed s (stream_error "RESET_STREAM final size is below delivered offset")
    else (s', answered s' [] none)

unfoldable pub raise_max_data : StreamReceiveState → ℕ → StreamReceiveState
raise_max_data s max_data = record s { max_data = max s.max_data max_data }
