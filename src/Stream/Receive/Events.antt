-- ===== src/Stream/Receive/Events.antt =====
-- The calls of a `stream_receive_state` in any order, the bytes that they hand out, and the stream the
-- peer sends.
use flow_q.Prelude.{ℕ, suc, ◌≡◌, Bool, false, none, some}
use flow_q.Prelude.{List, [], ◌∷◌, ◌++◌, length, get_elem?, ltb, ◌&&◌, ◌||◌, if◌then◌else◌}
use flow_q.Frame.{StreamFrame, ResetStreamFrame}
use flow_q.Stream.Receive.{StreamReceiveState, StreamReceiveResult, fresh_receive_state}
use flow_q.Stream.Receive.Calls.{frame_offset, receive, reset, raise_max_data}
use flow_q.Stream.Receive.Received.{is_ok, covers}

pub data Event : Type 0 where
  arrived : StreamFrame → Event
  stopped : ResetStreamFrame → Event
  raised : ℕ → Event

-- The state, all bytes handed out, and the frames that were not refused.
pub record Trace : Type 0 where
  pub state : StreamReceiveState
  pub output : List ℕ
  pub accepted : List StreamFrame

unfoldable pub record_receive :
    Trace → StreamFrame → StreamReceiveState × StreamReceiveResult → Trace
record_receive t frame (s, r) = record {
  state = s;
  output = t.output ++ r.bytes;
  accepted = if is_ok r.error then frame ∷ t.accepted else t.accepted;
}

unfoldable pub react : Trace → Event → Trace
react t (arrived frame) = record_receive t frame (receive t.state frame)
react t (stopped frame) = record t { state = (reset t.state frame).0 }
react t (raised max_data) = record t { state = raise_max_data t.state max_data }

unfoldable pub run : Trace → List Event → Trace
run t [] = t
run t (event ∷ events) = run (react t event) events

unfoldable pub opened : ℕ → Trace
opened max_data = record { state = fresh_receive_state max_data; output = []; accepted = [] }

abbrev pub covered : List StreamFrame → ℕ → Bool
covered [] i = false
covered (frame ∷ frames) i = covers frame i || covered frames i

-- The bytes from `offset` on are those of the stream `content`.
abbrev pub IsSlice : (ℕ → ℕ) → ℕ → List ℕ → Type 0
IsSlice content offset [] = Unit {0}
IsSlice content offset (b ∷ bytes) = (b ≡ content offset) × IsSlice content (suc offset) bytes

-- Every STREAM frame has a slice of the one stream.
abbrev pub AreSlices : (ℕ → ℕ) → List Event → Type 0
AreSlices content [] = Unit {0}
AreSlices content (arrived frame ∷ events) =
    IsSlice content (frame_offset frame) frame.bytes × AreSlices content events
AreSlices content (event ∷ events) = AreSlices content events

-- `output` is the longest front of the stream that the frames cover.
abbrev pub IsCoveredPrefix : (ℕ → ℕ) → List StreamFrame → List ℕ → Type 0
IsCoveredPrefix content frames output =
    ((i : ℕ)
      → get_elem? output i
        ≡ (if ltb i (length output) && covered frames i then some (content i) else none))
    × (covered frames (length output) ≡ false)
