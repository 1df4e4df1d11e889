-- ===== src/Congestion/Examples.antt =====
-- A run of the congestion controller, and its theorem at concrete inputs.
use flow_q.Prelude.{◌+◌, ◌≡◌, ◌≤◌, refl, arith, List, [], ◌∷◌, true}
use flow_q.Congestion.{
  congestion_avoidance, fresh_controller, packet_sent, packet_acknowledged, grown_window,
  packet_lost, congestion_event,
}
use flow_q.Congestion.Bounds.{
  Call, sent, acknowledged, lost, congested, answer_all, total_acknowledged, answer_all-window,
}

-- Slow start, a loss, and avoidance: the last call stands first.
abbrev calls : List Call
calls =
    acknowledged 1200
    ∷ congested
    ∷ lost 1200
    ∷ acknowledged 1200
    ∷ sent 1200 true
    ∷ sent 2400 true
    ∷ []

calls_answered : answer_all calls ≡ record {
  bytes_in_flight = 0;
  congestion_window = 6818;
  ssthresh = 6600;
  phase = congestion_avoidance;
}
unfolding fresh_controller packet_sent packet_acknowledged grown_window packet_lost congestion_event
calls_answered = refl

answer_all-window_example :
    (2400 ≤ (answer_all calls).congestion_window)
    × ((answer_all calls).congestion_window ≤ 12000 + total_acknowledged calls)
answer_all-window_example = answer_all-window calls (omega arith)
