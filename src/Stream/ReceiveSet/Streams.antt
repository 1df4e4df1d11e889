-- ===== src/Stream/ReceiveSet/Streams.antt =====
-- Each stream of the set has the state of its own frames, and the limits of the peer are kept.
use flow_q.Prelude.{
  ltb, leb, ◌%◌, ◌/◌, ℕ, ◌≡◌, ◌∙◌, ap, sym, refl, arith, Bool, true, false, Option, none, some,
  Bool-cases, Option-cases, not, ◌&&◌, inl, inr,
}
use flow_q.Prelude.{List, [], ◌∷◌, ◌==◌, if◌then◌else◌}
use flow_q.Frame.{StreamFrame, ResetStreamFrame}
use flow_q.Stream.Receive.{StreamReceiveState}
use flow_q.Stream.Receive.Calls.{receive, reset, raise_max_data}
use flow_q.Stream.SendSet.{StreamInitiator, client, server, classify_stream_id}
use flow_q.Stream.SendSet.Ids.{classify_stream_id-initiator, classify_stream_id-direction}
use flow_q.Stream.ReceiveSet.{
  same_initiator, peer_limit, StreamReceiveSet, find_stream, store_stream, stream_for,
  is_past_limit, ensure_stream, refused_stream, stored, receive_frame, reset_stream_of,
  raise_max_data_of,
}

find_stream-store_stream :
    (id other : ℕ) (s : StreamReceiveState) (streams : List (ℕ × StreamReceiveState))
    → find_stream other (store_stream id s streams)
      ≡ (if id == other then some s else find_stream other streams)
unfolding find_stream store_stream
find_stream-store_stream id other s [] = refl
find_stream-store_stream id other s ((key, t) ∷ others) = elim (Bool-cases (key == id)) [
  | inl same ↦ ground (arith, same)
  | inr new ↦ ground (arith, new, find_stream-store_stream id other s others)
]

-- What is found under `other` behind a call for `id` that left the state `s` of it.
abbrev pub found_after : StreamReceiveSet → ℕ → StreamReceiveState → ℕ → Option StreamReceiveState
found_after set id s other = if id == other then some s else find_stream other set.streams

abbrev pub is_known : Option StreamReceiveState → Bool
is_known none = false
is_known (some s) = true

-- The low bit of the ids of an initiator's streams.
abbrev pub initiator_bit : StreamInitiator → ℕ
initiator_bit client = 0
initiator_bit server = 1

-- The limit given to the peer for the streams of the direction of `id`.
abbrev pub limit_given : StreamReceiveSet → ℕ → ℕ
limit_given set id =
    if ltb (id % 4) 2
    then set.peer_limits.bidirectional_limit
    else set.peer_limits.unidirectional_limit

-- A new stream of the peer whose number is not below the limit for its direction.
abbrev pub is_refused : StreamReceiveSet → ℕ → Bool
is_refused set id =
    not (is_known (find_stream id set.streams))
    && (not (id % 2 == initiator_bit set.local_initiator) && leb (limit_given set id) (id / 4))

initiator_lem :
    (local : StreamInitiator) (id : ℕ)
    → not (same_initiator (classify_stream_id id).initiator local)
      ≡ not (id % 2 == initiator_bit local)
initiator_lem client id =
    ap (λ i. not (same_initiator i client)) (classify_stream_id-initiator id) ∙ ground arith
initiator_lem server id =
    ap (λ i. not (same_initiator i server)) (classify_stream_id-initiator id) ∙ ground arith

peer_limit-limit_given :
    (set : StreamReceiveSet) (id : ℕ)
    → peer_limit set (classify_stream_id id).direction ≡ limit_given set id
peer_limit-limit_given set id =
    ap (peer_limit set) (classify_stream_id-direction id)
    ∙ elim (Bool-cases (ltb (id % 4) 2)) [ inl low ↦ rw low refl | inr high ↦ rw high refl ]

is_past_limit_lem :
    (set : StreamReceiveSet) (id : ℕ)
    → is_past_limit set id
      ≡ (not (id % 2 == initiator_bit set.local_initiator) && leb (limit_given set id) (id / 4))
unfolding is_past_limit
is_past_limit_lem set id =
    ap (λ b. b && leb (peer_limit set (classify_stream_id id).direction) (id / 4))
      (initiator_lem set.local_initiator id)
    ∙ ap (λ (limit : ℕ). not (id % 2 == initiator_bit set.local_initiator) && leb limit (id / 4))
        (peer_limit-limit_given set id)

receive_into-cases :
    (set : StreamReceiveSet) (frame : StreamFrame)
    → receive_frame set frame ≡ (
        if is_refused set frame.stream_id
        then (set, refused_stream)
        else stored set frame.stream_id (receive (stream_for set frame.stream_id) frame))
unfolding receive_frame ensure_stream stream_for
receive_into-cases set frame = elim (Option-cases (find_stream frame.stream_id set.streams)) [
  | inl new ↦
      let same = is_past_limit_lem set frame.stream_id in
      elim (Bool-cases (is_past_limit set frame.stream_id)) [
        | inl past ↦ rw (new, past, sym same ∙ past, receive_frame) refl
        | inr below ↦ rw (new, below, sym same ∙ below, receive_frame) refl
      ]
  | inr (s, old) ↦ rw (old, receive_frame) refl
]

-- `receive` of the set refuses a STREAM frame for a new stream of the peer whose number, the id over
-- 4, is not below the limit given for its direction: it leaves the set as it is and answers with the
-- error. Any other frame drives the stream that it names, a new one from its initial credit. A call of
-- `receive` that is not refused, of `reset` and of `update_max_data` leaves every other stream alone.
pub streams_apart :
    (set : StreamReceiveSet) (frame : StreamFrame) (stop : ResetStreamFrame) (id max_data other : ℕ)
    → (receive_frame set frame ≡ (
        if is_refused set frame.stream_id
        then (set, refused_stream)
        else stored set frame.stream_id (receive (stream_for set frame.stream_id) frame)))
      × (find_stream other
            (stored set frame.stream_id (receive (stream_for set frame.stream_id) frame)).0.streams
          ≡ found_after set frame.stream_id
              (receive (stream_for set frame.stream_id) frame).0
              other)
      × (find_stream other (reset_stream_of set stop).0.streams
          ≡ found_after set stop.stream_id (reset (stream_for set stop.stream_id) stop).0 other)
      × (find_stream other (raise_max_data_of set id max_data).streams
          ≡ found_after set id (raise_max_data (stream_for set id) max_data) other)
unfolding reset_stream_of raise_max_data_of
streams_apart set frame stop id max_data other =
    let at =
      λ (key : ℕ) (s : StreamReceiveState). find_stream-store_stream key other s set.streams in
    (
      receive_into-cases set frame,
      at frame.stream_id (receive (stream_for set frame.stream_id) frame).0,
      at stop.stream_id (reset (stream_for set stop.stream_id) stop).0,
      at id (raise_max_data (stream_for set id) max_data),
    )
