-- ===== src/AckLoss.antt =====
-- include/flowq/quic/ack_loss.hpp: the packet numbers received and sent in one packet number space,
-- the ACK frames between them, and packet-threshold loss. A `std::set` is an ascending list.
pub mod Sets
pub mod Runs
pub mod Exchange
pub mod Detection
mod Examples
use flow_q.Prelude.{
  ℕ, zero, suc, ◌+◌, ◌-◌, ◌≤◌, ◌<◌, ◌^◌, ◌%◌, Bool, true, false, Option, none, some, not,
}
use flow_q.Prelude.{List, [], ◌∷◌, ◌++◌, ltb, leb, ◌==◌, ◌&&◌, ◌||◌, if◌then◌else◌, add64, sub64}
use mathlib.Core.Option
use flow_q.Frame.{AckFrame, AckRange}

pub data PacketNumberSpace : Type 0 where
  initial handshake application : PacketNumberSpace

pub data SentPacketState : Type 0 where
  outstanding acknowledged lost : SentPacketState

pub record SentPacket : Type 0 where
  pub space : PacketNumberSpace
  pub packet_number : ℕ
  pub ack_eliciting : Bool
  pub state : SentPacketState

pub record LossDetectionResult : Type 0 where
  pub newly_acknowledged : List ℕ
  pub newly_lost : List ℕ

-- `std::set::contains` and `std::set::insert`, with the flag that `insert` returns.
unfoldable pub contains : ℕ → List ℕ → Bool
contains n [] = false
contains n (x ∷ xs) = n == x || contains n xs

unfoldable pub insert : ℕ → List ℕ → List ℕ
insert n [] = n ∷ []
insert n (x ∷ xs) =
    let rest = insert n xs in if ltb n x then n ∷ (x ∷ xs) else if n == x then x ∷ xs else x ∷ rest

-- The loop from `packet` on, with `rounds` more to come before `packet == high`.
unfoldable pub insert_run : ℕ → ℕ → List ℕ → List ℕ
insert_run zero packet packets = insert packet packets
insert_run (suc rounds) packet packets = insert_run rounds (packet + 1) (insert packet packets)

-- `none` is the answer `false`.
unfoldable pub append_ack_range : List ℕ → ℕ → ℕ → Option (List ℕ)
append_ack_range packets low high =
    if ltb high low then none else some (insert_run (high - low) low packets)

-- One round over `frame.ranges`: the new `range_low` and the set; `none` is a `return {}`.
unfoldable pub expand_range : ℕ → AckRange → List ℕ → Option (ℕ × List ℕ)
expand_range range_low r packets =
    let skipped = add64 r.gap 2 in
    let range_high = range_low - skipped in
    if ltb range_low skipped
    then none
    else if ltb range_high r.length
    then none
    else Option.map (λ more. (range_high - r.length, more))
        (append_ack_range packets (range_high - r.length) range_high)

unfoldable pub expand_ranges : ℕ → List AckRange → List ℕ → List ℕ
expand_ranges range_low [] packets = packets
expand_ranges range_low (r ∷ rs) packets = elim (expand_range range_low r packets) [
  | none ↦ []
  | some (next_low, more) ↦ expand_ranges next_low rs more
]

unfoldable pub expand_ack_frame : AckFrame → List ℕ
expand_ack_frame f =
    if ltb f.largest_acknowledged f.first_ack_range
    then []
    else let range_low = f.largest_acknowledged - f.first_ack_range in
      elim (append_ack_range [] range_low f.largest_acknowledged) [
        | none ↦ []
        | some packets ↦ expand_ranges range_low f.ranges packets
      ]

-- `received_packet_tracker`.
pub record ReceivedPacketTracker : Type 0 where
  pub packets : List ℕ

unfoldable pub observe : ReceivedPacketTracker → ℕ → ReceivedPacketTracker × Bool
observe t n = (record { packets = insert n t.packets }, not (contains n t.packets))

unfoldable pub clear_received : ReceivedPacketTracker → ReceivedPacketTracker
clear_received t = record { packets = [] }

-- The order of the reverse iterators.
unfoldable pub descending : List ℕ → List ℕ → List ℕ
descending [] seen = seen
descending (x ∷ xs) seen = descending xs (x ∷ seen)

-- The first loop of `to_ack_frame`: runs of consecutive numbers, the highest first.
unfoldable pub ack_runs : ℕ → ℕ → List ℕ → List (ℕ × ℕ)
ack_runs current_low current_high [] = (current_low, current_high) ∷ []
ack_runs current_low current_high (packet ∷ rest) =
    let joined = ack_runs packet current_high rest in
    let split = ack_runs packet packet rest in
    if packet + 1 == current_low then joined else (current_low, current_high) ∷ split

-- The second loop: each run as a gap below the run before it, and a length.
unfoldable pub ack_ranges : ℕ → List (ℕ × ℕ) → List AckRange
ack_ranges previous_low [] = []
ack_ranges previous_low ((low, high) ∷ runs) =
    record { gap = sub64 (sub64 previous_low high) 2; length = high - low } ∷ ack_ranges low runs

unfoldable pub frame_of_runs : ℕ → List (ℕ × ℕ) → AckFrame
frame_of_runs ack_delay [] = record {
  largest_acknowledged = 0;
  ack_delay = ack_delay;
  first_ack_range = 0;
  ranges = [];
  ecn_counts = none;
}
frame_of_runs ack_delay ((low, high) ∷ runs) = record {
  largest_acknowledged = high;
  ack_delay = ack_delay;
  first_ack_range = high - low;
  ranges = ack_ranges low runs;
  ecn_counts = none;
}

frame_of_descending : ℕ → List ℕ → AckFrame
frame_of_descending ack_delay [] = frame_of_runs 0 []
frame_of_descending ack_delay (high ∷ rest) = frame_of_runs ack_delay (ack_runs high high rest)

unfoldable pub to_ack_frame : ReceivedPacketTracker → ℕ → AckFrame
unfolding frame_of_descending
to_ack_frame t ack_delay = frame_of_descending ack_delay (descending t.packets [])

-- `sent_packet_tracker`.
pub record SentPacketTracker : Type 0 where
  pub space : PacketNumberSpace
  pub packets : List SentPacket

unfoldable pub on_packet_sent : SentPacketTracker → ℕ → Bool → SentPacketTracker
on_packet_sent t n ack_eliciting = record t { packets = t.packets ++ (sent ∷ []) }
  where
    sent : SentPacket
    sent = record {
      space = t.space;
      packet_number = n;
      ack_eliciting = ack_eliciting;
      state = outstanding;
    }

abbrev pub is_outstanding : SentPacketState → Bool
is_outstanding outstanding = true
is_outstanding acknowledged = false
is_outstanding lost = false

-- The first loop of `on_ack_received`: the packets, and what it pushes to `newly_acknowledged`.
unfoldable pub acknowledge_all : List ℕ → List SentPacket → List SentPacket × List ℕ
acknowledge_all acked [] = ([], [])
acknowledge_all acked (p ∷ ps) =
    let (rest, newly) = acknowledge_all acked ps in
    if contains p.packet_number acked && is_outstanding p.state
    then (record p { state = acknowledged } ∷ rest, p.packet_number ∷ newly)
    else (p ∷ rest, newly)

-- The second loop, and what it pushes to `newly_lost`.
unfoldable pub detect_lost : ℕ → ℕ → List SentPacket → List SentPacket × List ℕ
detect_lost largest threshold [] = ([], [])
detect_lost largest threshold (p ∷ ps) =
    let (rest, newly) = detect_lost largest threshold ps in
    if not (is_outstanding p.state) || not p.ack_eliciting
    then (p ∷ rest, newly)
    else if leb p.packet_number largest && leb threshold (largest - p.packet_number)
    then (record p { state = lost } ∷ rest, p.packet_number ∷ newly)
    else (p ∷ rest, newly)

detect_with : SentPacketTracker → AckFrame → ℕ → List ℕ → SentPacketTracker × LossDetectionResult
detect_with t frame packet_threshold [] = (t, record { newly_acknowledged = []; newly_lost = [] })
detect_with t frame packet_threshold (x ∷ xs) =
    let (packets, newly_acknowledged) = acknowledge_all (x ∷ xs) t.packets in
    let (packets', newly_lost) = detect_lost frame.largest_acknowledged packet_threshold packets in
    (
      record t { packets = packets' },
      record { newly_acknowledged = newly_acknowledged; newly_lost = newly_lost },
    )

unfoldable pub on_ack_received :
    SentPacketTracker → AckFrame → ℕ → SentPacketTracker × LossDetectionResult
unfolding detect_with
on_ack_received t frame packet_threshold =
    detect_with t frame packet_threshold (expand_ack_frame frame)

mark_lost_in : ℕ → List SentPacket → List SentPacket
mark_lost_in n [] = []
mark_lost_in n (p ∷ ps) =
    if p.packet_number == n && is_outstanding p.state
    then record p { state = lost } ∷ ps
    else p ∷ mark_lost_in n ps

unfoldable pub mark_lost : SentPacketTracker → ℕ → SentPacketTracker
unfolding mark_lost_in
mark_lost t n = record t { packets = mark_lost_in n t.packets }

unfoldable pub clear_sent : SentPacketTracker → SentPacketTracker
clear_sent t = record t { packets = [] }
