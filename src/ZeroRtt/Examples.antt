-- ===== src/ZeroRtt/Examples.antt =====
-- A window of four packet numbers, and the theorems at concrete inputs.
use flow_q.Prelude.{ℕ, ◌≡◌, refl, List, [], ◌∷◌}
use flow_q.ZeroRtt.{fresh_replay_protection, set_bit, clear_bits, moved, check_and_record}
use flow_q.ZeroRtt.Window.{is_fresh, offer, offer_all}
use flow_q.ZeroRtt.Replay.{check_and_record-is_fresh}

-- 5 and 9 share a bit; 3 is too old behind 9.
abbrev packets : List ℕ
packets = 5 ∷ 4 ∷ 5 ∷ 9 ∷ 7 ∷ 3 ∷ []

accepted_packets : (offer_all (fresh_replay_protection 4, []) packets).1 ≡ 7 ∷ 9 ∷ 4 ∷ 5 ∷ []
unfolding offer_all offer fresh_replay_protection set_bit clear_bits moved check_and_record
accepted_packets = refl

check_and_record-is_fresh_example :
    (check_and_record (offer_all (fresh_replay_protection 4, []) packets).0 6).1
    ≡ is_fresh 4 (offer_all (fresh_replay_protection 4, []) packets).1 6
check_and_record-is_fresh_example = check_and_record-is_fresh 4 packets 6
