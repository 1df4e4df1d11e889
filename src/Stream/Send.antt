-- ===== src/Stream/Send.antt =====
-- `stream_send_state` of include/flowq/quic/stream.hpp: the bytes of one sending stream, cut into
-- STREAM frames under the peer's credit, and the ranges lost and acknowledged. The result structs
-- without a frame and without an error are `none`.
pub mod Ranges
pub mod Invariant
pub mod Owed
pub mod Popped
pub mod Reached
pub mod Drained
pub mod Repaired
mod Examples
use flow_q.Prelude.{
  ℕ, zero, suc, ◌+◌, ◌-◌, min, max, Bool, true, false, not, ◌&&◌, ◌||◌, Option, none, some,
}
use flow_q.Prelude.{
  List, [], ◌∷◌, ◌++◌, length, get_or, ltb, leb, ◌==◌, if◌then◌else◌, add64, u64_max,
}
use flow_q.Prelude.{Result, ok, err, Error, protocol_error, String}
use flow_q.Frame.{StreamFrame, StopSendingFrame, MaxStreamDataFrame, StreamDataBlockedFrame}

pub record StreamSendRange : Type 0 where
  pub offset : ℕ
  pub length : ℕ
  pub fin : Bool

-- `stream_send_result` of a frame.
pub record StreamSendResult : Type 0 where
  pub frame : StreamFrame
  pub range : StreamSendRange
  pub retransmission : Bool

pub record StreamSendState : Type 0 where
  pub stream_id : ℕ
  pub max_data : ℕ
  pub bytes : List ℕ
  pub next_unsent_offset : ℕ
  pub finished : Bool
  pub fin_sent : Bool
  pub fin_acked : Bool
  pub stop_requested : Bool
  pub stop_error_code : Option ℕ
  pub lost : List StreamSendRange
  pub acked : List StreamSendRange

-- The constructor.
unfoldable pub fresh_send_state : ℕ → ℕ → StreamSendState
fresh_send_state stream_id max_data = record {
  stream_id = stream_id;
  max_data = max_data;
  bytes = [];
  next_unsent_offset = 0;
  finished = false;
  fin_sent = false;
  fin_acked = false;
  stop_requested = false;
  stop_error_code = none;
  lost = [];
  acked = [];
}

abbrev pub stream_error : String → Error
stream_error message = record { error_code = protocol_error; message = message }

unfoldable pub append : StreamSendState → List ℕ → Result StreamSendState
append s more =
    if s.stop_requested
    then err (stream_error "cannot append STREAM data after STOP_SENDING")
    else if s.finished
    then err (stream_error "cannot append STREAM data after FIN")
    else if ltb (u64_max - length more) (length s.bytes)
    then err (stream_error "STREAM send offset overflows")
    else ok (record s { bytes = s.bytes ++ more })

unfoldable pub finish : StreamSendState → Result StreamSendState
finish s =
    if s.stop_requested
    then err (stream_error "cannot finish STREAM after STOP_SENDING")
    else ok (record s { finished = true })

unfoldable pub range_covers : StreamSendRange → StreamSendRange → Bool
range_covers covering covered =
    leb covering.offset covered.offset
    && leb (add64 covered.offset covered.length) (add64 covering.offset covering.length)
    && (not covered.fin || covering.fin)

unfoldable pub is_acked : List StreamSendRange → StreamSendRange → Bool
is_acked [] range = false
is_acked (a ∷ others) range = range_covers a range || is_acked others range

unfoldable pub covers_lost_fin : List StreamSendRange → StreamSendRange → Bool
covers_lost_fin [] range = false
covers_lost_fin (l ∷ ls) range = (l.fin && range_covers range l) || covers_lost_fin ls range

unfoldable pub valid_sent_range : StreamSendState → StreamSendRange → Bool
valid_sent_range s range =
    not (ltb (length s.bytes) range.offset)
    && not (ltb (length s.bytes - range.offset) range.length)
    && not (ltb s.next_unsent_offset (add64 range.offset range.length))
    && not
        (range.fin && (not s.finished || not (add64 range.offset range.length == length s.bytes)))

-- The loop of `make_frame`: `rounds` bytes from `start` on. Reading out of range is no outcome of
-- the source; a 0 stands there.
unfoldable pub copy_bytes : List ℕ → ℕ → ℕ → List ℕ
copy_bytes bytes start zero = []
copy_bytes bytes start (suc rounds) = get_or bytes start 0 ∷ copy_bytes bytes (suc start) rounds

unfoldable pub make_frame : StreamSendState → StreamSendRange → Bool → StreamSendResult
make_frame s range retransmission = record {
  frame = record {
    stream_id = s.stream_id;
    offset = range.offset;
    offset_present = not (range.offset == 0);
    length_present = true;
    fin = range.fin;
    bytes = copy_bytes s.bytes range.offset range.length;
  };
  range = range;
  retransmission = retransmission;
}

abbrev mark_fin_sent : Bool → StreamSendState → StreamSendState
mark_fin_sent fin s = record s { fin_sent = fin || s.fin_sent }

-- `pop_frame` behind the lost ranges: the next `count` new bytes, or a FIN of its own.
unfoldable pub pop_unsent : StreamSendState → ℕ → StreamSendState × Option StreamSendResult
pop_unsent s count =
    let next = s.next_unsent_offset in
    let size = length s.bytes in
    let fin = s.finished && next + count == size && leb size s.max_data in
    let range : StreamSendRange = record { offset = next; length = count; fin = fin } in
    let s' = mark_fin_sent fin (record s { next_unsent_offset = next + count }) in
    (s', some (make_frame s' range false))

unfoldable pub pop_fin : StreamSendState → StreamSendState × Option StreamSendResult
pop_fin s =
    let range : StreamSendRange = record { offset = length s.bytes; length = 0; fin = true } in
    let s' = record s { fin_sent = true } in (s', some (make_frame s' range false))

unfoldable pub pop_new : StreamSendState → ℕ → StreamSendState × Option StreamSendResult
pop_new s max_data_size =
    let size = length s.bytes in
    let next = s.next_unsent_offset in
    if ltb next size && ltb 0 max_data_size
    then if leb s.max_data next
      then (s, none)
      else pop_unsent s (min max_data_size (min (size - next) (s.max_data - next)))
    else if s.finished && not s.fin_sent && not s.fin_acked && next == size && leb size s.max_data
    then pop_fin s
    else (s, none)

-- As much of a lost range as the frame can carry; the remainder stays lost.
unfoldable pub pop_part :
    StreamSendState
    → StreamSendRange
    → List StreamSendRange
    → ℕ
    → StreamSendState × Option StreamSendResult
pop_part s range rest max_data_size =
    let remaining : StreamSendRange = record {
      offset = add64 range.offset max_data_size;
      length = range.length - max_data_size;
      fin = range.fin;
    } in
    let part : StreamSendRange = record {
      offset = range.offset;
      length = max_data_size;
      fin = false;
    } in
    let s' = record s { lost = remaining ∷ rest } in (s', some (make_frame s' part true))

unfoldable pub pop_whole :
    StreamSendState
    → StreamSendRange
    → List StreamSendRange
    → StreamSendState × Option StreamSendResult
pop_whole s range rest =
    let s' = mark_fin_sent range.fin (record s { lost = rest }) in
    (s', some (make_frame s' range true))

-- The first lost range that is not acknowledged; `rest` are the lost ranges behind it.
unfoldable pub pop_lost :
    StreamSendState
    → StreamSendRange
    → List StreamSendRange
    → ℕ
    → StreamSendState × Option StreamSendResult
pop_lost s range rest max_data_size =
    if ltb 0 range.length && max_data_size == 0
    then (record s { lost = range ∷ rest }, none)
    else if ltb max_data_size range.length && ltb 0 max_data_size
    then pop_part s range rest max_data_size
    else pop_whole s range rest

-- `pop_frame` calls itself after it has dropped an acknowledged range: `ranges` are those left.
unfoldable pub pop_ranges :
    List StreamSendRange → StreamSendState → ℕ → StreamSendState × Option StreamSendResult
pop_ranges [] s max_data_size = pop_new (record s { lost = [] }) max_data_size
pop_ranges (range ∷ rest) s max_data_size =
    let later = pop_ranges rest s max_data_size in
    if is_acked s.acked range then later else pop_lost s range rest max_data_size

unfoldable pub pop_frame : StreamSendState → ℕ → StreamSendState × Option StreamSendResult
pop_frame s max_data_size =
    if s.stop_requested then (s, none) else pop_ranges s.lost s max_data_size

-- `remove_if` with `range_covers`.
unfoldable pub remove_covered : StreamSendRange → List StreamSendRange → List StreamSendRange
remove_covered range [] = []
remove_covered range (l ∷ ls) =
    let rest = remove_covered range ls in if range_covers range l then rest else l ∷ rest

abbrev counted_fin : StreamSendState → StreamSendRange → Bool
counted_fin s range =
    range.fin
    && (s.fin_sent || covers_lost_fin s.lost range)
    && s.finished
    && add64 range.offset range.length == length s.bytes

unfoldable pub on_acked : StreamSendState → StreamSendRange → StreamSendState
on_acked s range =
    if not (valid_sent_range s range)
    then s
    else let counted = record range { fin = counted_fin s range } in
      record s {
        acked = s.acked ++ (counted ∷ []);
        lost = remove_covered counted s.lost;
        fin_acked = s.fin_acked || counted.fin;
      }

unfoldable pub on_lost : StreamSendState → StreamSendRange → StreamSendState
on_lost s range =
    if s.stop_requested
    then s
    else if not (valid_sent_range s range)
    then s
    else if range.fin && not s.fin_sent
    then s
    else if is_acked s.acked range
    then s
    else record s { fin_sent = s.fin_sent && not range.fin; lost = s.lost ++ (range ∷ []) }

unfoldable pub update_max_data : StreamSendState → ℕ → StreamSendState
update_max_data s max_data = record s { max_data = max s.max_data max_data }

unfoldable pub receive_max_stream_data : StreamSendState → MaxStreamDataFrame → StreamSendState
receive_max_stream_data s frame =
    if frame.stream_id == s.stream_id then update_max_data s frame.maximum_stream_data else s

unfoldable pub stop_sending : StreamSendState → StopSendingFrame → Result StreamSendState
stop_sending s frame =
    if not (frame.stream_id == s.stream_id)
    then err (stream_error "STOP_SENDING stream id does not match send state")
    else ok (record s {
      stop_requested = true;
      stop_error_code = some frame.application_error_code;
      lost = [];
    })

unfoldable pub blocked : StreamSendState → Bool
blocked s =
    not s.stop_requested
    && ltb s.next_unsent_offset (length s.bytes)
    && leb s.max_data s.next_unsent_offset

unfoldable pub blocked_frame : StreamSendState → Option StreamDataBlockedFrame
blocked_frame s =
    if blocked s
    then some (record { stream_id = s.stream_id; maximum_stream_data = s.max_data })
    else none
