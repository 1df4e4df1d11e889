-- ===== src/Congestion/Bounds.antt =====
-- The windows stay within bounds, whatever calls are made.
use flow_q.Prelude.{ℕ, ◌+◌, ◌*◌, ◌/◌, ◌≤◌, ◌<◌, ◌^◌, ◌≡◌, arith, Bool, true, false}
use flow_q.Prelude.{List, [], ◌∷◌, if_cases, mul64}
use flow_q.Prelude.{sym, subst}
use native.Mathlib.Nat.{div-le_of_le-mul, mul-le-mul_right}
use flow_q.Congestion.{
  CongestionController, fresh_controller, is_slow_start, default_minimum_window,
  default_initial_window, set_slow_start_threshold, enter_congestion_avoidance, packet_sent,
  grown_window, packet_acknowledged, packet_lost, congestion_event, persistent_congestion,
}

pub data Call : Type 0 where
  sent : ℕ → Bool → Call
  acknowledged : ℕ → Call
  lost : ℕ → Call
  congested : Call
  persistently_congested : Call
  threshold_set : ℕ → Call
  avoidance_entered : Call

abbrev pub answer : CongestionController → Call → CongestionController
answer c (sent bytes ack_eliciting) = packet_sent c bytes ack_eliciting
answer c (acknowledged bytes) = packet_acknowledged c bytes
answer c (lost bytes) = packet_lost c bytes
answer c congested = congestion_event c
answer c persistently_congested = persistent_congestion c
answer c (threshold_set value) = set_slow_start_threshold c value
answer c avoidance_entered = enter_congestion_avoidance c

-- The calls of a list, the first of them last.
abbrev pub answer_all : List Call → CongestionController
answer_all [] = fresh_controller
answer_all (call ∷ before) = answer (answer_all before) call

abbrev pub acknowledged_by : Call → ℕ
acknowledged_by (sent bytes ack_eliciting) = 0
acknowledged_by (acknowledged bytes) = bytes
acknowledged_by (lost bytes) = 0
acknowledged_by congested = 0
acknowledged_by persistently_congested = 0
acknowledged_by (threshold_set value) = 0
acknowledged_by avoidance_entered = 0

abbrev pub total_acknowledged : List Call → ℕ
total_acknowledged [] = 0
total_acknowledged (call ∷ before) = acknowledged_by call + total_acknowledged before

avoidance_growth :
    (window bytes : ℕ) → 2400 ≤ window → bytes < 2 ^ 53 → mul64 1200 bytes / window ≤ bytes
avoidance_growth window bytes large small =
    let exact : mul64 1200 bytes ≡ 1200 * bytes = omega arith in
    let large_too : 1200 ≤ window = omega arith in
    div-le_of_le-mul window
      (subst (◌≤ window * bytes) (sym exact) (mul-le-mul_right bytes large_too))

grown_window_bounds :
    (c : CongestionController) (bytes : ℕ)
    → 2400 ≤ c.congestion_window
    → bytes < 2 ^ 53
    → c.congestion_window + bytes < 2 ^ 64
    → (c.congestion_window ≤ grown_window c bytes)
      × (grown_window c bytes ≤ c.congestion_window + bytes)
unfolding grown_window
grown_window_bounds c bytes large small fits =
    let growth = avoidance_growth c.congestion_window bytes large small in
    if_cases (λ window. (c.congestion_window ≤ window) × (window ≤ c.congestion_window + bytes))
      (is_slow_start c.phase) (λ slow. (omega arith, omega arith))
      (λ avoidance. (omega (arith, growth), omega (arith, growth)))

abbrev IsWindowFor : ℕ → CongestionController → Type 0
IsWindowFor total c =
    (default_minimum_window ≤ c.congestion_window)
    × (c.congestion_window ≤ default_initial_window + total)

answer_window :
    (c : CongestionController) (call : Call) (total : ℕ)
    → acknowledged_by call + total < 2 ^ 52
    → IsWindowFor total c
    → IsWindowFor (acknowledged_by call + total) (answer c call)
unfolding packet_sent packet_acknowledged packet_lost congestion_event persistent_congestion
    set_slow_start_threshold enter_congestion_avoidance
answer_window c (sent bytes true) total few (low, high) = (low, omega (arith, high))
answer_window c (sent bytes false) total few (low, high) = (low, omega (arith, high))
answer_window c (acknowledged bytes) total few (low, high) =
    let (up, most) = grown_window_bounds c bytes low (omega arith) (omega arith) in
    (omega (arith, low, up), omega (arith, high, most))
answer_window c (lost bytes) total few (low, high) = (low, omega (arith, high))
answer_window c congested total few (low, high) = (omega arith, omega (arith, low, high))
answer_window c persistently_congested total few (low, high) = (omega arith, omega arith)
answer_window c (threshold_set value) total few (low, high) = (low, omega (arith, high))
answer_window c avoidance_entered total few (low, high) = (low, omega (arith, high))

-- After any calls in any order, as long as less than 2^52 bytes were acknowledged, the congestion
-- window is at least two packets of 1200 bytes, so that no window is divided by 0, and at most the
-- initial window and one byte for each byte acknowledged.
pub answer_all-window :
    (calls : List Call)
    → total_acknowledged calls < 2 ^ 52
    → (default_minimum_window ≤ (answer_all calls).congestion_window)
      × ((answer_all calls).congestion_window ≤ default_initial_window + total_acknowledged calls)
unfolding fresh_controller
answer_all-window [] few = (omega arith, omega arith)
answer_all-window (call ∷ before) few =
    answer_window (answer_all before) call (total_acknowledged before) few
      (answer_all-window before (omega (arith, few)))
