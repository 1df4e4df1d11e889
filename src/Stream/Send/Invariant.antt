-- ===== src/Stream/Send/Invariant.antt =====
-- What holds of a sending stream at all times, kept by every operation.
use flow_q.Prelude.{ℕ, ◌-◌, ◌≤◌, ◌≡◌, ◌⊎◌, inl, inr, refl, arith, true, false, not}
use flow_q.Prelude.{
  List, [], ◌∷◌, ◌++◌, length, length-append, All, All-append, ltb, ◌==◌, ◌&&◌, u64_max, Result, ok,
  err, if_cases,
}
use flow_q.Frame.{StopSendingFrame, MaxStreamDataFrame}
use flow_q.Stream.Send.{
  StreamSendRange, StreamSendState, fresh_send_state, append, finish, on_acked, on_lost,
  update_max_data, receive_max_stream_data, stop_sending, is_acked, valid_sent_range, counted_fin,
}
use flow_q.Stream.Send.Ranges.{
  IsSentRange, valid_sent_range-IsSentRange, finished-IsSentRange, unfinished-IsSentRange,
  remove_covered-All,
}

abbrev pub IsRangeOf : StreamSendState → StreamSendRange → Type 0
IsRangeOf s = IsSentRange s.next_unsent_offset (length s.bytes) s.finished

-- What was sent lies within the bytes and the credit, and so do the ranges lost and acknowledged;
-- a FIN was sent only at the end of a finished stream.
pub record IsSound (s : StreamSendState) : Type 0 where
  pub small : length s.bytes ≤ u64_max
  pub in_bytes : s.next_unsent_offset ≤ length s.bytes
  pub in_credit : s.next_unsent_offset ≤ s.max_data
  pub fin_at_end :
      (s.fin_sent ≡ false) ⊎ ((s.finished ≡ true) × (s.next_unsent_offset ≡ length s.bytes))
  pub lost_sent : All (IsRangeOf s) s.lost
  pub acked_sent : All (IsRangeOf s) s.acked

pub fresh_send_state-IsSound :
    (stream_id max_data : ℕ) → IsSound (fresh_send_state stream_id max_data)
unfolding fresh_send_state
fresh_send_state-IsSound stream_id max_data = record {
  small = omega arith;
  in_bytes = omega arith;
  in_credit = omega arith;
  fin_at_end = inl refl;
  lost_sent = tt;
  acked_sent = tt;
}

pub update_max_data-IsSound :
    (s : StreamSendState) (limit : ℕ) → IsSound s → IsSound (update_max_data s limit)
unfolding update_max_data
update_max_data-IsSound s limit sound = record {
  small = sound.small;
  in_bytes = sound.in_bytes;
  in_credit = omega (arith, sound.in_credit);
  fin_at_end = sound.fin_at_end;
  lost_sent = sound.lost_sent;
  acked_sent = sound.acked_sent;
}

-- An operation that answers with an error leaves the state as it was.
abbrev pub IsSoundResult : Result StreamSendState → Type 0
IsSoundResult (ok s) = IsSound s
IsSoundResult (err e) = Unit {0}

abbrev with_end :
    (s : StreamSendState)
    → (s.fin_sent ≡ false) ⊎ ((s.finished ≡ true) × (s.next_unsent_offset ≡ length s.bytes))
    → (s.fin_sent ≡ false) ⊎ ((true ≡ true) × (s.next_unsent_offset ≡ length s.bytes))
with_end s (inl none_sent) = inl none_sent
with_end s (inr end) = inr (refl, end.1)

finished-IsSound : (s : StreamSendState) → IsSound s → IsSound (record s { finished = true })
finished-IsSound s sound = record {
  small = sound.small;
  in_bytes = sound.in_bytes;
  in_credit = sound.in_credit;
  fin_at_end = with_end s sound.fin_at_end;
  lost_sent =
      finished-IsSentRange s.next_unsent_offset (length s.bytes) s.finished s.lost sound.lost_sent;
  acked_sent =
      finished-IsSentRange s.next_unsent_offset (length s.bytes) s.finished s.acked
        sound.acked_sent;
}

pub finish-IsSound : (s : StreamSendState) → IsSound s → IsSoundResult (finish s)
unfolding finish
finish-IsSound s sound =
    if_cases IsSoundResult s.stop_requested (λ stopped. tt) (λ running. finished-IsSound s sound)

appended-IsSound :
    (s : StreamSendState) (more : List ℕ)
    → s.finished ≡ false
    → length s.bytes ≤ u64_max - length more
    → length more ≤ u64_max
    → IsSound s
    → IsSound (record s { bytes = s.bytes ++ more })
appended-IsSound s more unfinished fits short sound =
    let grown = length-append s.bytes more in
    record {
      small = omega (arith, grown, fits, short);
      in_bytes = omega (arith, grown, sound.in_bytes);
      in_credit = sound.in_credit;
      fin_at_end = elim sound.fin_at_end [
        | inl none_sent ↦ inl none_sent
        | inr end ↦ absurd (cc (unfinished, end.0))
      ];
      lost_sent =
          unfinished-IsSentRange s.next_unsent_offset (length s.bytes) (length (s.bytes ++ more))
            s.finished s.lost unfinished sound.lost_sent;
      acked_sent =
          unfinished-IsSentRange s.next_unsent_offset (length s.bytes) (length (s.bytes ++ more))
            s.finished s.acked unfinished sound.acked_sent;
    }

pub append-IsSound :
    (s : StreamSendState) (more : List ℕ)
    → length more ≤ u64_max
    → IsSound s
    → IsSoundResult (append s more)
unfolding append
append-IsSound s more short sound =
    if_cases IsSoundResult s.stop_requested (λ stopped. tt)
      (λ running.
        if_cases IsSoundResult s.finished (λ done. tt)
          (λ unfinished.
            if_cases IsSoundResult (ltb (u64_max - length more) (length s.bytes)) (λ large. tt)
              (λ fits. appended-IsSound s more unfinished (ground arith) short sound)))

pub stop_sending-IsSound :
    (s : StreamSendState) (frame : StopSendingFrame)
    → IsSound s
    → IsSoundResult (stop_sending s frame)
unfolding stop_sending
stop_sending-IsSound s frame sound =
    if_cases IsSoundResult (not (frame.stream_id == s.stream_id)) (λ other. tt)
      (λ same. record {
        small = sound.small;
        in_bytes = sound.in_bytes;
        in_credit = sound.in_credit;
        fin_at_end = sound.fin_at_end;
        lost_sent = tt;
        acked_sent = sound.acked_sent;
      })

pub receive_max_stream_data-IsSound :
    (s : StreamSendState) (frame : MaxStreamDataFrame)
    → IsSound s
    → IsSound (receive_max_stream_data s frame)
unfolding receive_max_stream_data
receive_max_stream_data-IsSound s frame sound =
    if_cases IsSound (frame.stream_id == s.stream_id)
      (λ same. update_max_data-IsSound s frame.maximum_stream_data sound) (λ other. sound)

lost_again-IsSound :
    (s : StreamSendState) (range : StreamSendRange)
    → IsRangeOf s range
    → IsSound s
    → IsSound (record s { fin_sent = s.fin_sent && not range.fin; lost = s.lost ++ (range ∷ []) })
lost_again-IsSound s range sent sound = record {
  small = sound.small;
  in_bytes = sound.in_bytes;
  in_credit = sound.in_credit;
  fin_at_end = ground (arith, sound.fin_at_end);
  lost_sent = All-append (IsRangeOf s) s.lost (range ∷ []) sound.lost_sent (sent, tt);
  acked_sent = sound.acked_sent;
}

pub on_lost-IsSound :
    (s : StreamSendState) (range : StreamSendRange) → IsSound s → IsSound (on_lost s range)
unfolding on_lost
on_lost-IsSound s range sound =
    if_cases IsSound s.stop_requested (λ stopped. sound)
      (λ running.
        if_cases IsSound (not (valid_sent_range s range)) (λ unknown. sound)
          (λ known.
            if_cases IsSound (range.fin && not s.fin_sent) (λ stale. sound)
              (λ fresh.
                if_cases IsSound (is_acked s.acked range) (λ arrived. sound)
                  (λ missing.
                    lost_again-IsSound s range
                      (valid_sent_range-IsSentRange s range sound.small (ground (arith, known)))
                      sound))))

counted_fin-IsRangeOf :
    (s : StreamSendState) (range : StreamSendRange)
    → IsRangeOf s range
    → IsRangeOf s (record range { fin = counted_fin s range })
counted_fin-IsRangeOf s range sent = (sent.0, ground (arith, sent.1))

pub on_acked-IsSound :
    (s : StreamSendState) (range : StreamSendRange) → IsSound s → IsSound (on_acked s range)
unfolding on_acked
on_acked-IsSound s range sound =
    if_cases IsSound (not (valid_sent_range s range)) (λ unknown. sound)
      (λ known.
        let counted : StreamSendRange = record range { fin = counted_fin s range } in
        let sent =
          counted_fin-IsRangeOf s range
            (valid_sent_range-IsSentRange s range sound.small (ground (arith, known))) in
        record {
          small = sound.small;
          in_bytes = sound.in_bytes;
          in_credit = sound.in_credit;
          fin_at_end = sound.fin_at_end;
          lost_sent = remove_covered-All (IsRangeOf s) counted s.lost sound.lost_sent;
          acked_sent = All-append (IsRangeOf s) s.acked (counted ∷ []) sound.acked_sent (sent, tt);
        })
