-- ===== src/Stream/Send/Repaired.antt =====
-- Loss repair: what `on_lost` and `on_acked` do to the next `pop_frame`.
use flow_q.Prelude.{ℕ, ◌≤◌, ◌≡◌, arith, true, false, not, ap, ◌∙◌}
use flow_q.Prelude.{[], ◌∷◌, ◌++◌, ltb, ◌==◌, ◌&&◌, if-false, some}
use flow_q.Stream.Send.{
  StreamSendRange, StreamSendState, pop_frame, pop_ranges, pop_lost, pop_whole, make_frame, on_lost,
  is_acked, valid_sent_range,
}

abbrev recorded : StreamSendState → StreamSendRange → StreamSendState
recorded s range = record s {
  fin_sent = s.fin_sent && not range.fin;
  lost = s.lost ++ (range ∷ []);
}

on_lost_lem :
    (s : StreamSendState) (range : StreamSendRange)
    → s.stop_requested ≡ false
    → valid_sent_range s range ≡ true
    → range.fin && not s.fin_sent ≡ false
    → is_acked s.acked range ≡ false
    → on_lost s range ≡ recorded s range
unfolding on_lost
on_lost_lem s range running known fresh missing =
    if-false _ running ∙ if-false _ (ap not known) ∙ if-false _ fresh ∙ if-false _ missing

-- A range that `on_lost` records while no other is lost is the next that `pop_frame` hands out,
-- whole and marked as a retransmission, where the frame has room for it. The stream is not stopped,
-- and the range was sent, not acknowledged, and has a FIN only if one is in flight.
pub pop_frame-on_lost :
    (s : StreamSendState) (range : StreamSendRange) (most : ℕ)
    → s.stop_requested ≡ false
    → s.lost ≡ []
    → valid_sent_range s range ≡ true
    → range.fin && not s.fin_sent ≡ false
    → is_acked s.acked range ≡ false
    → range.length ≤ most
    → (pop_frame (on_lost s range) most).1 ≡ some (make_frame s range true)
unfolding pop_frame pop_ranges pop_lost pop_whole make_frame
pop_frame-on_lost s range most running none_lost known fresh missing fits =
    let no_zero : ltb 0 range.length && most == 0 ≡ false = ground arith in
    let not_long : ltb most range.length && ltb 0 most ≡ false = ground arith in
    let s' = recorded s range in
    ap (λ after. (pop_frame after most).1) (on_lost_lem s range running known fresh missing)
    ∙ ap (λ answer. answer.1)
        (if-false _ running
          ∙ ap (λ ls. pop_ranges (ls ++ (range ∷ [])) s' most) none_lost
          ∙ if-false _ missing
          ∙ if-false _ no_zero
          ∙ if-false _ not_long)
