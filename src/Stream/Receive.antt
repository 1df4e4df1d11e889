-- ===== src/Stream/Receive.antt =====
-- `stream_receive_state` of include/flowq/quic/stream.hpp: STREAM frames in any order, put together
-- to the bytes of the stream. The `std::map` of pending ranges is a list in the order of its keys.
pub mod Calls
pub mod Layout
pub mod Written
pub mod Split
pub mod Merged
pub mod Drained
pub mod Received
pub mod Events
pub mod Reassembly
pub mod Accepted
pub mod Complete
pub mod Outcome
pub mod Limits
mod Examples
use flow_q.Prelude.{
  ℕ, zero, suc, ◌+◌, ◌-◌, ◌≤◌, ◌<◌, min, max, Bool, true, false, not, ◌&&◌, ◌||◌, Option, none,
  some,
}
use flow_q.Prelude.{
  List, [], ◌∷◌, ◌++◌, length, get_elem?, drop, replicate, ltb, leb, ◌==◌, if◌then◌else◌, u64_max,
}
use flow_q.Prelude.{Error, protocol_error, flow_control_error, String}
use flow_q.Frame.{StreamFrame, ResetStreamFrame}
use flow_q.Stream.Send.{stream_error}

-- An offset, and the bytes from there on.
abbrev pub Pending : Type 0
Pending = List (ℕ × List ℕ)

pub record StreamReceiveState : Type 0 where
  pub next_offset : ℕ
  pub max_data : ℕ
  pub delivered : List ℕ
  pub pending : Pending
  pub final_size : Option ℕ
  pub reset_received : Bool
  pub reset_error_code : Option ℕ

-- `stream_receive_result`; an error that is `ok` is `none`.
pub record StreamReceiveResult : Type 0 where
  pub bytes : List ℕ
  pub final_size_known : Bool
  pub final_size : ℕ
  pub closed : Bool
  pub error : Option Error

unfoldable pub fresh_receive_state : ℕ → StreamReceiveState
fresh_receive_state max_data = record {
  next_offset = 0;
  max_data = max_data;
  delivered = [];
  pending = [];
  final_size = none;
  reset_received = false;
  reset_error_code = none;
}

abbrev pub value_or : Option ℕ → ℕ → ℕ
value_or none other = other
value_or (some n) other = n

abbrev pub has_value : Option ℕ → Bool
has_value none = false
has_value (some n) = true

abbrev pub is_value : Option ℕ → ℕ → Bool
is_value none n = false
is_value (some m) n = m == n

unfoldable pub closed : StreamReceiveState → Bool
closed s = s.reset_received || is_value s.final_size s.next_offset

unfoldable pub largest_of : ℕ → Pending → ℕ
largest_of largest [] = largest
largest_of largest ((start, bytes) ∷ ranges) =
    largest_of (max largest (start + length bytes)) ranges

-- The range before `upper_bound(offset)`.
unfoldable pub range_before : ℕ → Pending → Option (ℕ × List ℕ)
range_before offset [] = none
range_before offset ((start, bytes) ∷ ranges) =
    let later = range_before offset ranges in
    if ltb offset start
    then none
    else elim later [ none ↦ some (start, bytes) | some range ↦ some range ]

abbrev pub byte_in : ℕ → Option (ℕ × List ℕ) → Option ℕ
byte_in offset none = none
byte_in offset (some (start, bytes)) =
    if leb start offset && ltb offset (start + length bytes)
    then get_elem? bytes (offset - start)
    else none

unfoldable pub byte_at : StreamReceiveState → ℕ → Option ℕ
byte_at s offset =
    if ltb offset (length s.delivered)
    then get_elem? s.delivered offset
    else byte_in offset (range_before offset s.pending)

abbrev pub differs : Option ℕ → ℕ → Bool
differs none b = false
differs (some a) b = not (a == b)

-- The loop of `validate_overlap`: whether a byte conflicts with one that is there.
unfoldable pub conflicts : StreamReceiveState → ℕ → List ℕ → Bool
conflicts s offset [] = false
conflicts s offset (b ∷ bytes) = differs (byte_at s offset) b || conflicts s (suc offset) bytes

-- `lower_bound(start)` is the front of the list.
abbrev pub is_lower_bound : ℕ → Pending → Bool
is_lower_bound start [] = true
is_lower_bound start ((key, bytes) ∷ ranges) = leb start key

-- The ranges before `first`, and those from it on: `first` is the lower bound of `start`, or the
-- range before it if that reaches `start`.
unfoldable pub split_first : ℕ → Pending → Pending × Pending
split_first start [] = ([], [])
split_first start ((key, bytes) ∷ ranges) =
    let (before, rest) = split_first start ranges in
    if leb start key || (is_lower_bound start ranges && leb start (key + length bytes))
    then ([], (key, bytes) ∷ ranges)
    else ((key, bytes) ∷ before, rest)

-- `merged_start`, `merged_end`, the ranges up to `last` and those from it on.
pub record Merge : Type 0 where
  pub merged_start : ℕ
  pub merged_end : ℕ
  pub touched : Pending
  pub after : Pending

unfoldable pub find_last : ℕ → ℕ → Pending → Merge
find_last start finish [] = record {
  merged_start = start;
  merged_end = finish;
  touched = [];
  after = [];
}
find_last start finish ((key, bytes) ∷ ranges) =
    let more = find_last (min start key) (max finish (key + length bytes)) ranges in
    if ltb finish key
    then record {
      merged_start = start;
      merged_end = finish;
      touched = [];
      after = (key, bytes) ∷ ranges;
    }
    else record more { touched = (key, bytes) ∷ more.touched }

-- A store into a vector.
unfoldable pub set : List ℕ → ℕ → ℕ → List ℕ
set [] i v = []
set (x ∷ xs) zero v = v ∷ xs
set (x ∷ xs) (suc i) v = x ∷ set xs i v

-- `write_byte` for each byte of a run.
unfoldable pub write_bytes : List ℕ → ℕ → List ℕ → List ℕ
write_bytes merged i [] = merged
write_bytes merged i (b ∷ bytes) = write_bytes (set merged i b) (suc i) bytes

unfoldable pub write_ranges : ℕ → List ℕ → Pending → List ℕ
write_ranges merged_start merged [] = merged
write_ranges merged_start merged ((key, bytes) ∷ ranges) =
    write_ranges merged_start (write_bytes merged (key - merged_start) bytes) ranges

-- The vector `merged`: the ranges touched, and over them the new bytes.
unfoldable pub merged_bytes : Merge → ℕ → List ℕ → List ℕ
merged_bytes m offset bytes =
    let zeros = replicate (m.merged_end - m.merged_start) 0 in
    let from = max offset m.merged_start in
    write_bytes (write_ranges m.merged_start zeros m.touched) (from - m.merged_start)
      (drop (from - offset) bytes)

-- The new map. The merged range takes the place of the ranges erased.
unfoldable pub buffer_new_suffix : ℕ → Pending → ℕ → List ℕ → Pending
buffer_new_suffix next_offset pending offset bytes =
    let start = max offset next_offset in
    let finish = offset + length bytes in
    let (before, rest) = split_first start pending in
    let m = find_last start finish rest in
    if leb finish start
    then pending
    else before ++ ((m.merged_start, merged_bytes m offset bytes) ∷ m.after)

unfoldable pub find_range : ℕ → Pending → Option (List ℕ)
find_range key [] = none
find_range key ((start, bytes) ∷ ranges) =
    if start == key then some bytes else find_range key ranges

unfoldable pub erase_range : ℕ → Pending → Pending
erase_range key [] = []
erase_range key ((start, bytes) ∷ ranges) =
    if start == key then ranges else (start, bytes) ∷ erase_range key ranges

-- The loop of `drain_contiguous`. Every round erases a range, so it takes no more rounds than there
-- are ranges. The bytes put out are those appended to `delivered`.
unfoldable pub drain_rounds : ℕ → StreamReceiveState → List ℕ → StreamReceiveState × List ℕ
drain_rounds zero s output = (s, output)
drain_rounds (suc rounds) s output = elim (find_range s.next_offset s.pending) [
  | none ↦ (s, output)
  | some bytes ↦
      drain_rounds rounds
        (record s {
          delivered = s.delivered ++ bytes;
          next_offset = s.next_offset + length bytes;
          pending = erase_range s.next_offset s.pending;
        })
        (output ++ bytes)
]

unfoldable pub drain_contiguous : StreamReceiveState → StreamReceiveState × List ℕ
drain_contiguous s = drain_rounds (length s.pending) s []
