-- ===== src/Stream/ReceiveSet.antt =====
-- `stream_receive_set` of include/flowq/quic/stream.hpp: the receiving streams of a connection under
-- the limits given to the peer. The `std::map` is a list of keys and states; its order is never read.
pub mod Streams
mod Examples
use flow_q.Prelude.{ℕ, ◌/◌, Bool, true, false, not, ◌&&◌, Option, none, some}
use flow_q.Prelude.{List, [], ◌∷◌, ◌==◌, leb, if◌then◌else◌}
use flow_q.Frame.{
  StreamFrame, ResetStreamFrame, MaxStreamDataFrame, StreamDirection, bidirectional, unidirectional,
}
use flow_q.Stream.Send.{stream_error}
use flow_q.Stream.SendSet.{StreamInitiator, client, server, StreamLimits, classify_stream_id}
use flow_q.Stream.Receive.{StreamReceiveState, StreamReceiveResult, fresh_receive_state}
use flow_q.Stream.Receive.Calls.{receive, reset, raise_max_data}

pub record StreamReceiveSet : Type 0 where
  pub initial_max_data : ℕ
  pub local_initiator : StreamInitiator
  pub peer_limits : StreamLimits
  pub streams : List (ℕ × StreamReceiveState)

unfoldable pub fresh_receive_set : ℕ → StreamInitiator → StreamLimits → StreamReceiveSet
fresh_receive_set initial_max_data local_initiator peer_limits = record {
  initial_max_data = initial_max_data;
  local_initiator = local_initiator;
  peer_limits = peer_limits;
  streams = [];
}

unfoldable pub find_stream : ℕ → List (ℕ × StreamReceiveState) → Option StreamReceiveState
find_stream id [] = none
find_stream id ((key, s) ∷ others) = if key == id then some s else find_stream id others

-- The state under a key, changed through the pointer or reference to it, or put under a new key.
unfoldable pub store_stream :
    ℕ → StreamReceiveState → List (ℕ × StreamReceiveState) → List (ℕ × StreamReceiveState)
store_stream id s [] = (id, s) ∷ []
store_stream id s ((key, t) ∷ others) =
    let rest = store_stream id s others in if key == id then (id, s) ∷ others else (key, t) ∷ rest

abbrev or_emplaced : StreamReceiveSet → Option StreamReceiveState → StreamReceiveState
or_emplaced set none = fresh_receive_state set.initial_max_data
or_emplaced set (some s) = s

unfoldable pub stream_for : StreamReceiveSet → ℕ → StreamReceiveState
stream_for set id = or_emplaced set (find_stream id set.streams)

abbrev pub same_initiator : StreamInitiator → StreamInitiator → Bool
same_initiator client client = true
same_initiator server server = true
same_initiator _ _ = false

abbrev pub peer_limit : StreamReceiveSet → StreamDirection → ℕ
peer_limit set bidirectional = set.peer_limits.bidirectional_limit
peer_limit set unidirectional = set.peer_limits.unidirectional_limit

-- A stream of the peer whose number reaches the limit.
unfoldable pub is_past_limit : StreamReceiveSet → ℕ → Bool
is_past_limit set id =
    let info = classify_stream_id id in
    not (same_initiator info.initiator set.local_initiator)
    && leb (peer_limit set info.direction) (id / 4)

-- `ensure_state_for` of the state that is found, where `none` is the null pointer.
abbrev pub or_allowed : StreamReceiveSet → ℕ → Option StreamReceiveState → Option StreamReceiveState
or_allowed set id (some s) = some s
or_allowed set id none =
    if is_past_limit set id then none else some (fresh_receive_state set.initial_max_data)

unfoldable pub ensure_stream : StreamReceiveSet → ℕ → Option StreamReceiveState
ensure_stream set id = or_allowed set id (find_stream id set.streams)

-- `stream_delivery` without the stream id, which is the one of the frame.
abbrev pub refused_stream : StreamReceiveResult
refused_stream = record {
  bytes = [];
  final_size_known = false;
  final_size = 0;
  closed = false;
  error = some (stream_error "peer stream count limit exceeded");
}

abbrev pub stored :
    StreamReceiveSet
    → ℕ
    → StreamReceiveState × StreamReceiveResult
    → StreamReceiveSet × StreamReceiveResult
stored set id (s, result) = (record set { streams = store_stream id s set.streams }, result)

abbrev pub receive_into :
    StreamReceiveSet
    → StreamFrame
    → Option StreamReceiveState
    → StreamReceiveSet × StreamReceiveResult
receive_into set frame none = (set, refused_stream)
receive_into set frame (some s) = stored set frame.stream_id (receive s frame)

unfoldable pub receive_frame :
    StreamReceiveSet → StreamFrame → StreamReceiveSet × StreamReceiveResult
receive_frame set frame = receive_into set frame (ensure_stream set frame.stream_id)

unfoldable pub reset_stream_of :
    StreamReceiveSet → ResetStreamFrame → StreamReceiveSet × StreamReceiveResult
reset_stream_of set frame =
    stored set frame.stream_id (reset (stream_for set frame.stream_id) frame)

unfoldable pub raise_max_data_of : StreamReceiveSet → ℕ → ℕ → StreamReceiveSet
raise_max_data_of set id max_data = record set {
  streams = store_stream id (raise_max_data (stream_for set id) max_data) set.streams;
}
