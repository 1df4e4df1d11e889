-- ===== src/AckLoss/Examples.antt =====
-- Runs of the two trackers, and their theorems at concrete inputs.
use flow_q.Prelude.{ℕ, ◌≡◌, refl, arith, List, [], ◌∷◌, true, false, none}
use flow_q.Frame.{AckFrame}
use flow_q.AckLoss.{
  SentPacketTracker, application, insert, observe, descending, ack_runs, ack_ranges, frame_of_runs,
  to_ack_frame, insert_run, append_ack_range, expand_ranges, expand_ack_frame, contains,
  on_packet_sent, acknowledge_all, detect_lost, on_ack_received, clear_received,
}
use flow_q.AckLoss.Exchange.{observe_all}
use flow_q.AckLoss.Exchange.{contains-expand-to_ack_frame}
use flow_q.AckLoss.Detection.{judged, on_ack_received_verdicts}

abbrev arrived : List ℕ
arrived = 9 ∷ 3 ∷ 8 ∷ 4 ∷ 0 ∷ 3 ∷ []

arrived_acknowledged : to_ack_frame (observe_all arrived) 7 ≡ record {
  largest_acknowledged = 9;
  ack_delay = 7;
  first_ack_range = 1;
  ranges = record { gap = 2; length = 1 } ∷ record { gap = 1; length = 0 } ∷ [];
  ecn_counts = none;
}
unfolding to_ack_frame observe insert descending ack_runs ack_ranges frame_of_runs
arrived_acknowledged = refl

contains-expand-to_ack_frame_example :
    contains 4 (expand_ack_frame (to_ack_frame (observe_all arrived) 7)) ≡ contains 4 arrived
contains-expand-to_ack_frame_example =
    contains-expand-to_ack_frame 4 7 9 (3 ∷ 8 ∷ 4 ∷ 0 ∷ 3 ∷ [])
      (omega arith, (omega arith, (omega arith, (omega arith, (omega arith, (omega arith, tt))))))

-- A frame without ranges acknowledges nothing but its first run: a tracker that is empty gives
-- the frame of packet 0.
empty_acknowledged :
    expand_ack_frame (to_ack_frame (clear_received (observe_all arrived)) 7) ≡ 0 ∷ []
unfolding to_ack_frame clear_received frame_of_runs descending expand_ack_frame append_ack_range
    insert_run insert expand_ranges
empty_acknowledged = refl

abbrev fresh : SentPacketTracker
fresh = record { space = application; packets = [] }

abbrev in_flight : SentPacketTracker
in_flight =
    on_packet_sent (on_packet_sent (on_packet_sent (on_packet_sent fresh 0 true) 1 false) 2 true) 5
      true

abbrev fifth : AckFrame
fifth = record {
  largest_acknowledged = 5;
  ack_delay = 0;
  first_ack_range = 0;
  ranges = [];
  ecn_counts = none;
}

fifth_received :
    (on_ack_received in_flight fifth 3).1
    ≡ record { newly_acknowledged = 5 ∷ []; newly_lost = 0 ∷ 2 ∷ [] }
unfolding on_packet_sent on_ack_received acknowledge_all detect_lost expand_ack_frame
    append_ack_range insert_run insert expand_ranges contains
fifth_received = refl

on_ack_received_verdicts_example :
    on_ack_received in_flight fifth 3 ≡ judged (expand_ack_frame fifth) in_flight fifth 3
on_ack_received_verdicts_example = on_ack_received_verdicts in_flight fifth 3
