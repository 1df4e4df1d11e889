-- ===== src/ZeroRtt.antt =====
-- `zero_rtt_replay_protection` of include/flowq/quic/zero_rtt.hpp: the window of 0-RTT packet numbers
-- that were accepted, a bitmap at the numbers mod the size of the window.
pub mod Bitmap
pub mod Window
pub mod Replay
mod Examples
use flow_q.Prelude.{ℕ, zero, suc, ◌-◌, ◌%◌, Bool, true, false}
use flow_q.Prelude.{List, [], ◌∷◌, length, get_or, replicate, ltb, leb, ◌==◌, if◌then◌else◌}

pub record ReplayProtection : Type 0 where
  pub window_size : ℕ
  pub largest_seen : ℕ
  pub bitmap : List Bool

unfoldable pub fresh_replay_protection : ℕ → ReplayProtection
fresh_replay_protection window_size = record {
  window_size = window_size;
  largest_seen = 0;
  bitmap = [];
}

-- A store into the bitmap.
unfoldable pub set_bit : List Bool → ℕ → Bool → List Bool
set_bit [] i v = []
set_bit (b ∷ bits) zero v = v ∷ bits
set_bit (b ∷ bits) (suc i) v = b ∷ set_bit bits i v

-- The loop over `offset`, whose number is `packet_number + 1` in each of the rounds.
unfoldable pub clear_bits : ℕ → List Bool → ℕ → ℕ → List Bool
clear_bits window bits packet_number zero = bits
clear_bits window bits packet_number (suc rounds) =
    clear_bits window (set_bit bits (suc packet_number % window) false) (suc packet_number) rounds

-- The bitmap when the window moves up to a packet number.
unfoldable pub moved : ReplayProtection → ℕ → List Bool
moved s packet_number =
    let shift = packet_number - s.largest_seen in
    if ltb shift s.window_size
    then clear_bits s.window_size s.bitmap s.largest_seen shift
    else replicate (length s.bitmap) false

unfoldable pub check_and_record : ReplayProtection → ℕ → ReplayProtection × Bool
check_and_record s packet_number =
    let window = s.window_size in
    let index = packet_number % window in
    if window == 0
    then (s, false)
    else if length s.bitmap == 0
    then (
      record s {
        largest_seen = packet_number;
        bitmap = set_bit (replicate window false) index true;
      },
      true,
    )
    else if ltb s.largest_seen packet_number
    then (
      record s {
        largest_seen = packet_number;
        bitmap = set_bit (moved s packet_number) index true;
      },
      true,
    )
    else if leb window (s.largest_seen - packet_number)
    then (s, false)
    else if get_or s.bitmap index false
    then (s, false)
    else (record s { bitmap = set_bit s.bitmap index true }, true)
