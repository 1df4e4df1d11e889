-- ===== src/AckLoss/Detection.antt =====
-- `on_ack_received` packet by packet: its two loops against one independent verdict.
use flow_q.Prelude.{ℕ, ◌-◌, ◌≡◌, refl, arith, not, Bool, map}
use flow_q.Prelude.{List, [], ◌∷◌, leb, ◌&&◌, if◌then◌else◌}
use flow_q.Frame.{AckFrame}
use flow_q.AckLoss.{
  SentPacket, acknowledged, lost, SentPacketTracker, LossDetectionResult, contains, is_outstanding,
  acknowledge_all, detect_lost, detect_with, on_ack_received, expand_ack_frame,
}

-- An outstanding packet in the acknowledged set is delivered. One that is not, elicits an ACK and
-- lies `threshold` or more below the largest acknowledged number is lost. All else stays.
abbrev pub delivered : List ℕ → SentPacket → Bool
delivered acked p = is_outstanding p.state && contains p.packet_number acked

abbrev pub overtaken : List ℕ → ℕ → ℕ → SentPacket → Bool
overtaken acked largest threshold p =
    is_outstanding p.state
    && not (contains p.packet_number acked)
    && p.ack_eliciting
    && leb p.packet_number largest
    && leb threshold (largest - p.packet_number)

abbrev pub verdict : List ℕ → ℕ → ℕ → SentPacket → SentPacket
verdict acked largest threshold p =
    if delivered acked p
    then record p { state = acknowledged }
    else if overtaken acked largest threshold p
    then record p { state = lost }
    else p

abbrev pub numbers_where : (SentPacket → Bool) → List SentPacket → List ℕ
numbers_where test [] = []
numbers_where test (p ∷ ps) =
    if test p then p.packet_number ∷ numbers_where test ps else numbers_where test ps

acknowledge_all_lem :
    (acked : List ℕ) (ps : List SentPacket)
    → (acknowledge_all acked ps).1 ≡ numbers_where (delivered acked) ps
unfolding acknowledge_all
acknowledge_all_lem acked [] = refl
acknowledge_all_lem acked (p ∷ ps) = ground (arith, acknowledge_all_lem acked ps)

both_loops :
    (acked : List ℕ) (largest threshold : ℕ) (ps : List SentPacket)
    → ((detect_lost largest threshold (acknowledge_all acked ps).0).0
        ≡ map (verdict acked largest threshold) ps)
      × ((detect_lost largest threshold (acknowledge_all acked ps).0).1
          ≡ numbers_where (overtaken acked largest threshold) ps)
unfolding acknowledge_all detect_lost
both_loops acked largest threshold [] = (refl, refl)
both_loops acked largest threshold (p ∷ ps) = ground (arith, both_loops acked largest threshold ps)

abbrev pub judged :
    List ℕ → SentPacketTracker → AckFrame → ℕ → SentPacketTracker × LossDetectionResult
judged [] t frame threshold = (t, record { newly_acknowledged = []; newly_lost = [] })
judged (first ∷ others) t frame threshold =
    let acked = first ∷ others in
    let largest = frame.largest_acknowledged in
    (
      record t { packets = map (verdict acked largest threshold) t.packets },
      record {
        newly_acknowledged = numbers_where (delivered acked) t.packets;
        newly_lost = numbers_where (overtaken acked largest threshold) t.packets;
      },
    )

detect_with_lem :
    (t : SentPacketTracker) (frame : AckFrame) (threshold : ℕ) (acked : List ℕ)
    → detect_with t frame threshold acked ≡ judged acked t frame threshold
unfolding detect_with
detect_with_lem t frame threshold [] = refl
detect_with_lem t frame threshold (first ∷ others) =
    let acked = first ∷ others in
    let (states, losses) = both_loops acked frame.largest_acknowledged threshold t.packets in
    rw (states, losses, acknowledge_all_lem acked t.packets)

-- The two loops of `on_ack_received` give each packet one verdict. If the frame expands to no
-- packet number, nothing changes. Otherwise each packet is in place and has its verdict as its
-- state: an outstanding packet of the expanded set is acknowledged, an outstanding packet outside
-- it that elicits an ACK and lies `threshold` or more below the largest acknowledged number is
-- lost, and all else stays. The result lists the packets so acknowledged and so lost, in order.
pub on_ack_received_verdicts :
    (t : SentPacketTracker) (frame : AckFrame) (threshold : ℕ)
    → on_ack_received t frame threshold ≡ judged (expand_ack_frame frame) t frame threshold
unfolding on_ack_received
on_ack_received_verdicts t frame threshold =
    detect_with_lem t frame threshold (expand_ack_frame frame)
