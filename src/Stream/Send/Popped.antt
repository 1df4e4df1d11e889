-- ===== src/Stream/Send/Popped.antt =====
-- What `pop_frame` hands out: bytes of the stream, in order, within the credit.
use flow_q.Prelude.{ℕ, ◌+◌, ◌-◌, ◌≤◌, ◌<◌, ◌≡◌, ◌⊎◌, inl, inr, refl, arith, true, false}
use flow_q.Prelude.{
  List, [], ◌∷◌, length, All, ltb, ◌==◌, ◌&&◌, ◌||◌, if_cases, add64, Option, none, some, ap,
}
use flow_q.Stream.Send.{
  StreamSendRange, StreamSendState, StreamSendResult, pop_frame, pop_ranges, pop_lost, pop_part,
  pop_whole, pop_new, make_frame, is_acked,
}
use flow_q.Stream.Send.Ranges.{copy_bytes_lem}
use flow_q.Stream.Send.Invariant.{IsSound, IsRangeOf}
use flow_q.Stream.Send.Owed.{IsArrived, IsPoppedOf, length-copy_bytes, pop_new-IsPopped}

abbrev pub IsPopped : StreamSendState → ℕ → StreamSendState × Option StreamSendResult → Type 0
IsPopped s most d = IsPoppedOf s s.lost most d

relost-IsSound :
    (s : StreamSendState) (ranges : List StreamSendRange)
    → All (IsRangeOf s) ranges
    → IsSound s
    → IsSound (record s { lost = ranges })
relost-IsSound s ranges sent sound = record {
  small = sound.small;
  in_bytes = sound.in_bytes;
  in_credit = sound.in_credit;
  fin_at_end = sound.fin_at_end;
  lost_sent = sent;
  acked_sent = sound.acked_sent;
}

fin_again :
    (s : StreamSendState) (range : StreamSendRange)
    → IsRangeOf s range
    → IsSound s
    → (range.fin || s.fin_sent ≡ false)
      ⊎ ((s.finished ≡ true) × (s.next_unsent_offset ≡ length s.bytes))
fin_again s range sent sound = ground (arith, sent.0, sent.1, sound.fin_at_end, sound.in_bytes)

pop_whole-IsPopped :
    (s : StreamSendState) (range : StreamSendRange) (rest : List StreamSendRange) (most : ℕ)
    → range.length ≤ most
    → is_acked s.acked range ≡ false
    → IsRangeOf s range
    → All (IsRangeOf s) rest
    → IsSound s
    → IsPoppedOf s (range ∷ rest) most (pop_whole s range rest)
unfolding pop_whole make_frame
pop_whole-IsPopped s range rest most fits missing sent others sound =
    let within : range.offset + range.length ≤ length s.bytes =
      omega (arith, sent.0, sound.in_bytes) in
    (
      record {
        small = sound.small;
        in_bytes = sound.in_bytes;
        in_credit = sound.in_credit;
        fin_at_end = fin_again s range sent sound;
        lost_sent = others;
        acked_sent = sound.acked_sent;
      },
      record {
        same_stream = refl;
        same_offset = refl;
        offset_shown = ground arith;
        same_bytes = copy_bytes_lem s.bytes range.offset range.length within;
        full = length-copy_bytes s.bytes range.offset range.length within;
        in_frame = fits;
        in_credit = omega (arith, sent.0, sound.in_credit);
        fin_at_end = sent.1;
        in_order = inl (
          refl,
          refl,
          record {
            dropped = [];
            first = range;
            rest = rest;
            cut = refl;
            arrived = tt;
            missing = missing;
            front = inl (refl, refl);
          },
        );
      },
    )

pop_part-IsPopped :
    (s : StreamSendState) (range : StreamSendRange) (rest : List StreamSendRange) (most : ℕ)
    → most < range.length
    → is_acked s.acked range ≡ false
    → IsRangeOf s range
    → All (IsRangeOf s) rest
    → IsSound s
    → IsPoppedOf s (range ∷ rest) most (pop_part s range rest most)
unfolding pop_part make_frame
pop_part-IsPopped s range rest most short missing sent others sound =
    let within : range.offset + most ≤ length s.bytes =
      omega (arith, short, sent.0, sound.in_bytes) in
    let no_wrap : add64 range.offset most ≡ range.offset + most =
      ground (arith, within, sound.small) in
    (
      relost-IsSound s
          (record {
            offset = add64 range.offset most;
            length = range.length - most;
            fin = range.fin;
          }
            ∷ rest)
          (
            (
              ground (arith, short, sent.0, sound.in_bytes, sound.small),
              ground (arith, short, sent.0, sent.1, sound.in_bytes, sound.small),
            ),
            others,
          )
          sound,
      record {
        same_stream = refl;
        same_offset = refl;
        offset_shown = ground arith;
        same_bytes = copy_bytes_lem s.bytes range.offset most within;
        full = length-copy_bytes s.bytes range.offset most within;
        in_frame = omega arith;
        in_credit = omega (arith, short, sent.0, sound.in_credit);
        fin_at_end = inl refl;
        in_order = inl (
          refl,
          refl,
          record {
            dropped = [];
            first = range;
            rest = rest;
            cut = refl;
            arrived = tt;
            missing = missing;
            front = inr (
              refl,
              short,
              ap
                  (λ (offset : ℕ).
                    record { offset = offset; length = range.length - most; fin = range.fin }
                    ∷ rest)
                  no_wrap,
            );
          },
        );
      },
    )

-- The states differ in their lost ranges alone.
without_lost-IsPopped :
    (s : StreamSendState) (most : ℕ) (popped : StreamSendState × Option StreamSendResult)
    → IsPoppedOf (record s { lost = [] }) [] most popped
    → IsPoppedOf s [] most popped
without_lost-IsPopped s most (s', none) sound = sound
without_lost-IsPopped s most (s', some result) (sound, f) = (
  sound,
  record {
    same_stream = f.same_stream;
    same_offset = f.same_offset;
    offset_shown = f.offset_shown;
    same_bytes = f.same_bytes;
    full = f.full;
    in_frame = f.in_frame;
    in_credit = f.in_credit;
    fin_at_end = f.fin_at_end;
    in_order = elim f.in_order [
      | inl (again, same, r) ↦ inl (
        again,
        same,
        record {
          dropped = r.dropped;
          first = r.first;
          rest = r.rest;
          cut = r.cut;
          arrived = r.arrived;
          missing = r.missing;
          front = r.front;
        },
      )
      | inr new ↦ inr new
    ];
  },
)

-- A lost range that was acknowledged is dropped.
dropped-IsPopped :
    (s : StreamSendState) (range : StreamSendRange) (rest : List StreamSendRange) (most : ℕ)
    (popped : StreamSendState × Option StreamSendResult)
    → IsArrived s range
    → IsPoppedOf s rest most popped
    → IsPoppedOf s (range ∷ rest) most popped
dropped-IsPopped s range rest most (s', none) known sound = sound
dropped-IsPopped s range rest most (s', some result) known (sound, f) = (
  sound,
  record {
    same_stream = f.same_stream;
    same_offset = f.same_offset;
    offset_shown = f.offset_shown;
    same_bytes = f.same_bytes;
    full = f.full;
    in_frame = f.in_frame;
    in_credit = f.in_credit;
    fin_at_end = f.fin_at_end;
    in_order = elim f.in_order [
      | inl (again, same, r) ↦ inl (
        again,
        same,
        record {
          dropped = range ∷ r.dropped;
          first = r.first;
          rest = r.rest;
          cut = ap (◌∷◌ range) r.cut;
          arrived = (known, r.arrived);
          missing = r.missing;
          front = r.front;
        },
      )
      | inr (new, all, cleared, from, to) ↦ inr (new, (known, all), cleared, from, to)
    ];
  },
)

pop_ranges-IsPopped :
    (ranges : List StreamSendRange) (s : StreamSendState) (most : ℕ)
    → All (IsRangeOf s) ranges
    → IsSound s
    → IsPoppedOf s ranges most (pop_ranges ranges s most)
unfolding pop_ranges pop_lost
pop_ranges-IsPopped [] s most sent sound =
    without_lost-IsPopped s most (pop_new (record s { lost = [] }) most)
      (pop_new-IsPopped (record s { lost = [] }) most refl (relost-IsSound s [] tt sound))
pop_ranges-IsPopped (range ∷ rest) s most sent sound =
    if_cases (IsPoppedOf s (range ∷ rest) most) (is_acked s.acked range)
      (λ arrived.
        dropped-IsPopped s range rest most (pop_ranges rest s most) arrived
          (pop_ranges-IsPopped rest s most sent.1 sound))
      (λ missing.
        if_cases (IsPoppedOf s (range ∷ rest) most) (ltb 0 range.length && most == 0)
          (λ no_room. relost-IsSound s (range ∷ rest) sent sound)
          (λ room.
            if_cases (IsPoppedOf s (range ∷ rest) most) (ltb most range.length && ltb 0 most)
              (λ long.
                pop_part-IsPopped s range rest most (ground (arith, long)) missing sent.0 sent.1
                  sound)
              (λ fits.
                pop_whole-IsPopped s range rest most (ground (arith, room, fits)) missing sent.0
                  sent.1 sound)))

-- From a sound state, `pop_frame` leaves a sound state, and a frame that it hands out carries
-- exactly the bytes of the stream at its offset, at most `most` of them, all within the credit of
-- the peer, and a FIN only at the end of a finished stream. The frame either repeats the first lost
-- range that is not acknowledged, whole or a front of `most` bytes, of which the rest stays lost; or
-- every lost range is acknowledged, and the frame starts at the first unsent byte and moves that to
-- its end, so that new data has no gaps.
pub pop_frame-IsPopped :
    (s : StreamSendState) (most : ℕ) → IsSound s → IsPopped s most (pop_frame s most)
unfolding pop_frame
pop_frame-IsPopped s most sound =
    if_cases (IsPopped s most) s.stop_requested (λ stopped. sound)
      (λ running. pop_ranges-IsPopped s.lost s most sound.lost_sent sound)
