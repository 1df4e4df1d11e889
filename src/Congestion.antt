-- ===== src/Congestion.antt =====
-- `congestion_controller` of include/flowq/quic/congestion.hpp: NewReno windows over bytes. Its
-- round-trip estimator is left out; no window depends on it.
pub mod Bounds
mod Examples
use flow_q.Prelude.{
  ℕ, ◌+◌, ◌-◌, ◌/◌, max, Bool, true, false, ◌&&◌, ltb, leb, if◌then◌else◌, add64, mul64, u64_max,
}

pub data CongestionPhase : Type 0 where
  slow_start congestion_avoidance recovery : CongestionPhase

abbrev pub is_slow_start : CongestionPhase → Bool
is_slow_start slow_start = true
is_slow_start congestion_avoidance = false
is_slow_start recovery = false

abbrev pub default_initial_window : ℕ
default_initial_window = 12000

abbrev pub default_minimum_window : ℕ
default_minimum_window = 2400

pub record CongestionController : Type 0 where
  pub bytes_in_flight : ℕ
  pub congestion_window : ℕ
  pub ssthresh : ℕ
  pub phase : CongestionPhase

unfoldable pub fresh_controller : CongestionController
fresh_controller = record {
  bytes_in_flight = 0;
  congestion_window = default_initial_window;
  ssthresh = u64_max;
  phase = slow_start;
}

unfoldable pub can_send : CongestionController → Bool
can_send c = ltb c.bytes_in_flight c.congestion_window

unfoldable pub set_slow_start_threshold : CongestionController → ℕ → CongestionController
set_slow_start_threshold c value = record c { ssthresh = value }

unfoldable pub enter_congestion_avoidance : CongestionController → CongestionController
enter_congestion_avoidance c = record c { phase = congestion_avoidance }

unfoldable pub packet_sent : CongestionController → ℕ → Bool → CongestionController
packet_sent c bytes ack_eliciting =
    if ack_eliciting then record c { bytes_in_flight = add64 c.bytes_in_flight bytes } else c

-- The subtraction that `on_packet_acknowledged` and `on_packet_lost` share.
abbrev pub landed : ℕ → ℕ → ℕ
landed bytes_in_flight bytes = if leb bytes bytes_in_flight then bytes_in_flight - bytes else 0

-- The window behind the first `if` on the phase.
unfoldable pub grown_window : CongestionController → ℕ → ℕ
grown_window c bytes =
    if is_slow_start c.phase
    then add64 c.congestion_window bytes
    else add64 c.congestion_window (mul64 1200 bytes / c.congestion_window)

unfoldable pub packet_acknowledged : CongestionController → ℕ → CongestionController
packet_acknowledged c bytes =
    let window = grown_window c bytes in
    record c {
      bytes_in_flight = landed c.bytes_in_flight bytes;
      congestion_window = window;
      phase =
          if is_slow_start c.phase && leb c.ssthresh window then congestion_avoidance else c.phase;
    }

unfoldable pub packet_lost : CongestionController → ℕ → CongestionController
packet_lost c bytes = record c { bytes_in_flight = landed c.bytes_in_flight bytes }

unfoldable pub congestion_event : CongestionController → CongestionController
congestion_event c =
    let halved = max (c.congestion_window / 2) default_minimum_window in
    record c { ssthresh = halved; congestion_window = halved; phase = congestion_avoidance }

unfoldable pub persistent_congestion : CongestionController → CongestionController
persistent_congestion c = record c {
  congestion_window = default_minimum_window;
  ssthresh = default_minimum_window;
  phase = slow_start;
}
