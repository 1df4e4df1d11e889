-- ===== src/Stream/Send/Owed.antt =====
-- What a frame handed out by `pop_frame` owes the stream, and the frames of new data.
use flow_q.Prelude.{ℕ, ◌+◌, ◌-◌, ◌≤◌, ◌<◌, ◌≡◌, ◌⊎◌, inr, refl, arith, true, false, not, min}
use flow_q.Prelude.{
  List, [], ◌∷◌, ◌++◌, length, length-take, length-drop, take, drop, All, ltb, leb, ◌==◌, ◌&&◌,
  if_cases, Option, none, some, ap, ◌∙◌,
}
use flow_q.Stream.Send.{
  StreamSendRange, StreamSendState, StreamSendResult, pop_new, pop_unsent, pop_fin, make_frame,
  copy_bytes, is_acked,
}
use flow_q.Stream.Send.Ranges.{later-IsSentRange, copy_bytes_lem}
use flow_q.Stream.Send.Invariant.{IsSound}

abbrev pub IsArrived : StreamSendState → StreamSendRange → Type 0
IsArrived s range = is_acked s.acked range ≡ true

-- `range` repeats the first range of `lost` that no acknowledgement covers: all of it, or `most` bytes
-- of its front, and then the rest of it stays lost, in front of the ranges behind it.
pub record IsRepeat (s s' : StreamSendState) (lost : List StreamSendRange) (most : ℕ)
    (range : StreamSendRange) : Type 0 where
  pub dropped : List StreamSendRange
  pub first : StreamSendRange
  pub rest : List StreamSendRange
  pub cut : lost ≡ dropped ++ (first ∷ rest)
  pub arrived : All (IsArrived s) dropped
  pub missing : is_acked s.acked first ≡ false
  pub front :
      ((range ≡ first) × (s'.lost ≡ rest))
      ⊎ ((range ≡ record { offset = first.offset; length = most; fin = false })
          × (most < first.length)
          × (s'.lost
              ≡ record {
                offset = first.offset + most;
                length = first.length - most;
                fin = first.fin;
              }
                ∷ rest))

-- The frame of `result` is what the stream owes: `range` of its bytes, at most `most` of them and
-- all within the credit, with a FIN only at the end. It repeats a range of `lost`, or all of `lost`
-- was acknowledged and it is the next new data.
pub record IsFaithful (s s' : StreamSendState) (lost : List StreamSendRange) (most : ℕ)
    (result : StreamSendResult) : Type 0 where
  pub same_stream : result.frame.stream_id ≡ s.stream_id
  pub same_offset : result.frame.offset ≡ result.range.offset
  pub offset_shown : (result.frame.offset_present ≡ true) ⊎ (result.frame.offset ≡ 0)
  pub same_bytes : result.frame.bytes ≡ take result.range.length (drop result.range.offset s.bytes)
  pub full : length result.frame.bytes ≡ result.range.length
  pub in_frame : result.range.length ≤ most
  pub in_credit : result.range.offset + result.range.length ≤ s.max_data
  pub fin_at_end :
      (result.frame.fin ≡ false)
      ⊎ ((s.finished ≡ true) × (result.range.offset + result.range.length ≡ length s.bytes))
  pub in_order :
      ((result.retransmission ≡ true)
        × (s'.next_unsent_offset ≡ s.next_unsent_offset)
        × IsRepeat s s' lost most result.range)
      ⊎ ((result.retransmission ≡ false)
          × All (IsArrived s) lost
          × (s'.lost ≡ [])
          × (result.range.offset ≡ s.next_unsent_offset)
          × (s'.next_unsent_offset ≡ result.range.offset + result.range.length))

abbrev pub IsPoppedOf :
    StreamSendState → List StreamSendRange → ℕ → StreamSendState × Option StreamSendResult → Type 0
IsPoppedOf s lost most (s', none) = IsSound s'
IsPoppedOf s lost most (s', some result) = IsSound s' × IsFaithful s s' lost most result

pub length-copy_bytes :
    (bytes : List ℕ) (start rounds : ℕ)
    → start + rounds ≤ length bytes
    → length (copy_bytes bytes start rounds) ≡ rounds
length-copy_bytes bytes start rounds h =
    ap length (copy_bytes_lem bytes start rounds h)
    ∙ length-take rounds (drop start bytes)
    ∙ omega (arith, length-drop start bytes, h)

pop_unsent-IsPopped :
    (s : StreamSendState) (most count : ℕ)
    → count ≤ most
    → s.next_unsent_offset + count ≤ length s.bytes
    → s.next_unsent_offset + count ≤ s.max_data
    → s.lost ≡ []
    → IsSound s
    → IsPoppedOf s [] most (pop_unsent s count)
unfolding pop_unsent make_frame
pop_unsent-IsPopped s most count fits here credit none_lost sound = (
  record {
    small = sound.small;
    in_bytes = here;
    in_credit = credit;
    fin_at_end = ground (arith, sound.fin_at_end, here);
    lost_sent =
        later-IsSentRange s.next_unsent_offset (s.next_unsent_offset + count) (length s.bytes)
          s.finished s.lost (omega arith) sound.lost_sent;
    acked_sent =
        later-IsSentRange s.next_unsent_offset (s.next_unsent_offset + count) (length s.bytes)
          s.finished s.acked (omega arith) sound.acked_sent;
  },
  record {
    same_stream = refl;
    same_offset = refl;
    offset_shown = ground arith;
    same_bytes = copy_bytes_lem s.bytes s.next_unsent_offset count here;
    full = length-copy_bytes s.bytes s.next_unsent_offset count here;
    in_frame = fits;
    in_credit = credit;
    fin_at_end = ground arith;
    in_order = inr (refl, tt, none_lost, refl, refl);
  },
)

pop_fin-IsPopped :
    (s : StreamSendState) (most : ℕ)
    → s.finished ≡ true
    → s.next_unsent_offset ≡ length s.bytes
    → s.lost ≡ []
    → IsSound s
    → IsPoppedOf s [] most (pop_fin s)
unfolding pop_fin make_frame copy_bytes
pop_fin-IsPopped s most done all_sent none_lost sound = (
  record {
    small = sound.small;
    in_bytes = sound.in_bytes;
    in_credit = sound.in_credit;
    fin_at_end = inr (done, all_sent);
    lost_sent = sound.lost_sent;
    acked_sent = sound.acked_sent;
  },
  record {
    same_stream = refl;
    same_offset = refl;
    offset_shown = ground arith;
    same_bytes = refl;
    full = refl;
    in_frame = omega arith;
    in_credit = omega (arith, all_sent, sound.in_credit);
    fin_at_end = inr (done, omega arith);
    in_order = inr (refl, tt, none_lost, omega (arith, all_sent), omega (arith, all_sent));
  },
)

pub pop_new-IsPopped :
    (s : StreamSendState) (most : ℕ)
    → s.lost ≡ []
    → IsSound s
    → IsPoppedOf s [] most (pop_new s most)
unfolding pop_new
pop_new-IsPopped s most none_lost sound =
    if_cases (IsPoppedOf s [] most) (ltb s.next_unsent_offset (length s.bytes) && ltb 0 most)
      (λ unsent.
        if_cases (IsPoppedOf s [] most) (leb s.max_data s.next_unsent_offset) (λ blocked. sound)
          (λ credit.
            pop_unsent-IsPopped s most
              (min most
                (min (length s.bytes - s.next_unsent_offset) (s.max_data - s.next_unsent_offset)))
              (omega arith) (omega (arith, sound.in_bytes)) (omega (arith, sound.in_credit))
              none_lost sound))
      (λ all_sent.
        if_cases (IsPoppedOf s [] most)
          (s.finished
            && not s.fin_sent
            && not s.fin_acked
            && s.next_unsent_offset == length s.bytes
            && leb (length s.bytes) s.max_data)
          (λ fin_due.
            pop_fin-IsPopped s most (ground (arith, fin_due)) (ground (arith, fin_due)) none_lost
              sound)
          (λ idle. sound))
