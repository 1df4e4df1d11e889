-- ===== src/Stream/SendSet.antt =====
-- `stream_send_set` of include/flowq/quic/stream.hpp: the sending streams of a connection under the
-- peer's stream limits. A `std::map` is a list of keys and states; its order is never read.
pub mod Scheduled
pub mod Ids
pub mod Opened
mod Examples
use flow_q.Prelude.{
  ℕ, zero, suc, ◌+◌, ◌-◌, ◌/◌, max, bit_and, Bool, true, false, not, ◌&&◌, Option, none, some,
}
use flow_q.Prelude.{List, [], ◌∷◌, ◌==◌, ltb, leb, if◌then◌else◌, Result, ok, err, Error}
use flow_q.Frame.{
  Frame, stream, stream_data_blocked, StreamDirection, bidirectional, unidirectional,
  StopSendingFrame, MaxStreamDataFrame, MaxStreamsFrame, StreamsBlockedFrame,
  StreamDataBlockedFrame,
}
use flow_q.Stream.Send.{
  StreamSendRange, StreamSendResult, StreamSendState, fresh_send_state, stream_error, append,
  finish, pop_frame, on_acked, on_lost, update_max_data, stop_sending, blocked_frame,
}

pub data StreamInitiator : Type 0 where
  client server : StreamInitiator

pub record StreamIdInfo : Type 0 where
  pub id : ℕ
  pub initiator : StreamInitiator
  pub direction : StreamDirection

unfoldable pub classify_stream_id : ℕ → StreamIdInfo
classify_stream_id id = record {
  id = id;
  initiator = if bit_and id 0x01 == 0 then client else server;
  direction = if bit_and id 0x02 == 0 then bidirectional else unidirectional;
}

pub record StreamLimits : Type 0 where
  pub bidirectional_limit : ℕ
  pub unidirectional_limit : ℕ

pub record StreamSendSet : Type 0 where
  pub initial_max_data : ℕ
  pub limits : StreamLimits
  pub streams : List (ℕ × StreamSendState)
  pub bidi_streams_blocked : Bool
  pub uni_streams_blocked : Bool

unfoldable pub fresh_send_set : ℕ → StreamLimits → StreamSendSet
fresh_send_set initial_max_data limits = record {
  initial_max_data = initial_max_data;
  limits = limits;
  streams = [];
  bidi_streams_blocked = false;
  uni_streams_blocked = false;
}

unfoldable pub find : ℕ → List (ℕ × StreamSendState) → Option StreamSendState
find id [] = none
find id ((key, s) ∷ others) = if key == id then some s else find id others

-- The state under a key, changed through the pointer or reference to it, or put under a new key.
unfoldable pub store : ℕ → StreamSendState → List (ℕ × StreamSendState) → List (ℕ × StreamSendState)
store id s [] = (id, s) ∷ []
store id s ((key, t) ∷ others) =
    let rest = store id s others in if key == id then (id, s) ∷ others else (key, t) ∷ rest

abbrev or_fresh : StreamSendSet → ℕ → Option StreamSendState → StreamSendState
or_fresh set id none = fresh_send_state id set.initial_max_data
or_fresh set id (some s) = s

unfoldable pub state_for : StreamSendSet → ℕ → StreamSendState
state_for set id = or_fresh set id (find id set.streams)

unfoldable pub limit_for : StreamSendSet → StreamDirection → ℕ
limit_for set bidirectional = set.limits.bidirectional_limit
limit_for set unidirectional = set.limits.unidirectional_limit

unfoldable pub mark_streams_blocked : StreamSendSet → StreamDirection → StreamSendSet
mark_streams_blocked set bidirectional = record set { bidi_streams_blocked = true }
mark_streams_blocked set unidirectional = record set { uni_streams_blocked = true }

-- `ensure_state_for` of the state that is found, where `none` is the null pointer. A new state is
-- put into the map by the caller's `store`.
abbrev pub or_opened :
    StreamSendSet → ℕ → Option StreamSendState → StreamSendSet × Option StreamSendState
or_opened set id (some s) = (set, some s)
or_opened set id none =
    let direction = (classify_stream_id id).direction in
    if leb (limit_for set direction) (id / 4)
    then (mark_streams_blocked set direction, none)
    else (set, some (fresh_send_state id set.initial_max_data))

unfoldable pub ensure_state_for : StreamSendSet → ℕ → StreamSendSet × Option StreamSendState
ensure_state_for set id = or_opened set id (find id set.streams)

-- `append` and `finish`: the call on the state, kept in the map whether or not it fails.
abbrev pub kept :
    StreamSendSet → ℕ → StreamSendState → Result StreamSendState → StreamSendSet × Option Error
kept set id s (ok s') = (record set { streams = store id s' set.streams }, none)
kept set id s (err e) = (record set { streams = store id s set.streams }, some e)

abbrev pub on_ensured :
    (StreamSendState → Result StreamSendState)
    → ℕ
    → StreamSendSet × Option StreamSendState
    → StreamSendSet × Option Error
on_ensured call id (set, none) = (set, some (stream_error "peer stream count limit exceeded"))
on_ensured call id (set, some s) = kept set id s (call s)

unfoldable pub append_to : StreamSendSet → ℕ → List ℕ → StreamSendSet × Option Error
append_to set id more = on_ensured (λ s. append s more) id (ensure_state_for set id)

unfoldable pub finish_stream : StreamSendSet → ℕ → StreamSendSet × Option Error
finish_stream set id = on_ensured finish id (ensure_state_for set id)

abbrev pop_found :
    StreamSendSet → ℕ → ℕ → Option StreamSendState → StreamSendSet × Option StreamSendResult
pop_found set id most none = (set, none)
pop_found set id most (some s) =
    let (s', result) = pop_frame s most in
    (record set { streams = store id s' set.streams }, result)

unfoldable pub pop_frame_of : StreamSendSet → ℕ → ℕ → StreamSendSet × Option StreamSendResult
pop_frame_of set id most = pop_found set id most (find id set.streams)

abbrev blocked_found : Option StreamSendState → Option StreamDataBlockedFrame
blocked_found none = none
blocked_found (some s) = blocked_frame s

unfoldable pub blocked_frame_of : StreamSendSet → ℕ → Option StreamDataBlockedFrame
blocked_frame_of set id = blocked_found (find id set.streams)

-- What one round of `pop_frames` appends: a STREAM frame, or else a STREAM_DATA_BLOCKED frame.
abbrev scheduled : Option StreamSendResult → Option StreamDataBlockedFrame → Option Frame
scheduled (some result) blocked = some (stream result.frame)
scheduled none (some b) = some (stream_data_blocked b)
scheduled none none = none

-- The rest of the loop: without a frame of this round, or behind it.
abbrev pub frame_added :
    Option Frame
    → StreamSendSet × List Frame
    → StreamSendSet × List Frame
    → StreamSendSet × List Frame
frame_added none skipped later = skipped
frame_added (some f) skipped (last, frames) = (last, f ∷ frames)

-- The loop of `pop_frames`, with room for `room` more frames.
unfoldable pub pop_frames_in : StreamSendSet → List ℕ → ℕ → ℕ → StreamSendSet × List Frame
pop_frames_in set [] room most = (set, [])
pop_frames_in set (id ∷ ids) zero most = (set, [])
pop_frames_in set (id ∷ ids) (suc room) most =
    let (set', result) = pop_frame_of set id most in
    frame_added (scheduled result (blocked_frame_of set' id))
      (pop_frames_in set' ids (suc room) most) (pop_frames_in set' ids room most)

unfoldable pub pop_frames : StreamSendSet → List ℕ → ℕ → ℕ → StreamSendSet × List Frame
pop_frames set ids max_frames max_stream_data_size =
    if max_frames == 0 then (set, []) else pop_frames_in set ids max_frames max_stream_data_size

unfoldable pub update_max_data_of : StreamSendSet → ℕ → ℕ → StreamSendSet
update_max_data_of set id max_data = record set {
  streams = store id (update_max_data (state_for set id) max_data) set.streams;
}

unfoldable pub receive_max_streams : StreamSendSet → MaxStreamsFrame → StreamSendSet
receive_max_streams set frame = record set { limits = raised frame.direction }
  where
    raised : StreamDirection → StreamLimits
    raised bidirectional = record set.limits {
      bidirectional_limit = max set.limits.bidirectional_limit frame.maximum_streams;
    }
    raised unidirectional = record set.limits {
      unidirectional_limit = max set.limits.unidirectional_limit frame.maximum_streams;
    }

abbrev on_found :
    StreamSendSet → ℕ → (StreamSendState → StreamSendState) → Option StreamSendState → StreamSendSet
on_found set id call none = set
on_found set id call (some s) = record set { streams = store id (call s) set.streams }

abbrev stopped :
    StreamSendSet → ℕ → StopSendingFrame → Option StreamSendState → StreamSendSet × Option Error
stopped set id frame none = (set, none)
stopped set id frame (some s) = kept set id s (stop_sending s frame)

unfoldable pub stop_sending_of : StreamSendSet → StopSendingFrame → StreamSendSet × Option Error
stop_sending_of set frame = stopped set frame.stream_id frame (find frame.stream_id set.streams)

unfoldable pub acked_of : StreamSendSet → ℕ → StreamSendRange → StreamSendSet
acked_of set id range = on_found set id (λ s. on_acked s range) (find id set.streams)

unfoldable pub lost_of : StreamSendSet → ℕ → StreamSendRange → StreamSendSet
lost_of set id range = on_found set id (λ s. on_lost s range) (find id set.streams)

abbrev is_blocked : StreamSendSet → StreamDirection → Bool
is_blocked set bidirectional = set.bidi_streams_blocked
is_blocked set unidirectional = set.uni_streams_blocked

unfoldable pub streams_blocked_frame : StreamSendSet → StreamDirection → Option StreamsBlockedFrame
streams_blocked_frame set direction =
    if is_blocked set direction
    then some (record { direction = direction; maximum_streams = limit_for set direction })
    else none
