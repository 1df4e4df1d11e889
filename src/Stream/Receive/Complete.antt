-- ===== src/Stream/Receive/Complete.antt =====
-- What a receiver has once frames of a stream within its limit have come, in whatever order.
use flow_q.Prelude.{ℕ, ◌≤◌, ◌≡◌, refl, arith, Bool, true, false, Option}
use flow_q.Prelude.{List, [], ◌∷◌, ◌||◌, map, if◌then◌else◌, ◌∙◌, ap, sym, u64_max, Error}
use flow_q.Frame.{StreamFrame}
use flow_q.Stream.Receive.{StreamReceiveState, fresh_receive_state, StreamReceiveResult}
use flow_q.Stream.Receive.Calls.{frame_offset, receive}
use flow_q.Stream.Receive.Received.{is_ok, covers, receive-IsReceived}
use flow_q.Stream.Receive.Events.{arrived, Trace, record_receive, react, run, opened, covered}
use flow_q.Stream.Receive.Reassembly.{record_receive-Reassembles, opened-Reassembles}
use flow_q.Stream.Receive.Accepted.{
  IsPart, AreParts, any_fin, size_of, Accepts, accept-final_size, receive-accept,
}

arrived-Accepts :
    (content : ℕ → ℕ) (size : ℕ) (t : Trace) (frame : StreamFrame)
    → size ≤ u64_max
    → Accepts content size t
    → IsPart content size frame
    → Accepts content size (react t (arrived frame))
      × ((react t (arrived frame)).accepted ≡ frame ∷ t.accepted)
unfolding react record_receive
arrived-Accepts content size t frame word fine part =
    let fits = receive-accept content size t frame word fine part in
    let (final, no_error) =
      accept-final_size t.state (frame_offset frame) frame.bytes (size_of size (frame ∷ t.accepted))
        fine.reassembles.assembled in
    let received = receive-IsReceived t.state frame fine.reassembles.assembled in
    let accepted : (react t (arrived frame)).accepted ≡ frame ∷ t.accepted =
      ap (λ (o : Option Error). if is_ok o then frame ∷ t.accepted else t.accepted)
        (ap (λ (d : StreamReceiveState × StreamReceiveResult). d.1.error) fits ∙ no_error) in
    (
      record {
        reassembles =
            record_receive-Reassembles content t frame (receive t.state frame) fine.reassembles
              part.0 received;
        not_reset = received.same_reset ∙ fine.not_reset;
        within = omega (arith, fine.within, received.same_limit);
        final =
            ap (λ (d : StreamReceiveState × StreamReceiveResult). d.0.final_size) fits
            ∙ final
            ∙ ap (size_of size) (sym accepted);
      },
      accepted,
    )

-- The frames in front of `seen`, the last first.
abbrev onto : List StreamFrame → List StreamFrame → List StreamFrame
onto [] seen = seen
onto (frame ∷ frames) seen = onto frames (frame ∷ seen)

run-Accepts :
    (content : ℕ → ℕ) (size : ℕ) (t : Trace) (frames : List StreamFrame)
    → size ≤ u64_max
    → Accepts content size t
    → AreParts content size frames
    → Accepts content size (run t (map arrived frames))
      × ((run t (map arrived frames)).accepted ≡ onto frames t.accepted)
unfolding run
run-Accepts content size t [] word fine parts = (fine, refl)
run-Accepts content size t (frame ∷ frames) word fine (part, parts) =
    let (next, accepted) = arrived-Accepts content size t frame word fine part in
    let (last, all) = run-Accepts content size (react t (arrived frame)) frames word next parts in
    (last, all ∙ ap (onto frames) accepted)

or_swap : (a b c : Bool) → (b || (a || c)) ≡ ((a || b) || c)
or_swap true true c = refl
or_swap true false c = refl
or_swap false true c = refl
or_swap false false c = refl

or_false_right : (a : Bool) → (a || false) ≡ a
or_false_right true = refl
or_false_right false = refl

covered-onto :
    (frames seen : List StreamFrame) (i : ℕ)
    → covered (onto frames seen) i ≡ (covered frames i || covered seen i)
covered-onto [] seen i = refl
covered-onto (frame ∷ frames) seen i =
    covered-onto frames (frame ∷ seen) i
    ∙ or_swap (covers frame i) (covered frames i) (covered seen i)

any_fin-onto :
    (frames seen : List StreamFrame) → any_fin (onto frames seen) ≡ (any_fin frames || any_fin seen)
any_fin-onto [] seen = refl
any_fin-onto (frame ∷ frames) seen =
    any_fin-onto frames (frame ∷ seen) ∙ or_swap frame.fin (any_fin frames) (any_fin seen)

-- What a receiver has once the frames have come.
pub run-parts :
    (content : ℕ → ℕ) (size max_data : ℕ) (frames : List StreamFrame)
    → size ≤ max_data
    → size ≤ u64_max
    → AreParts content size frames
    → Accepts content size (run (opened max_data) (map arrived frames))
      × ((i : ℕ)
          → covered (run (opened max_data) (map arrived frames)).accepted i ≡ covered frames i)
      × (any_fin (run (opened max_data) (map arrived frames)).accepted ≡ any_fin frames)
unfolding opened fresh_receive_state
run-parts content size max_data frames limit word parts =
    let fine : Accepts content size (opened max_data) = record {
      reassembles = opened-Reassembles content max_data;
      not_reset = refl;
      within = limit;
      final = refl;
    } in
    let (last, all) = run-Accepts content size (opened max_data) frames word fine parts in
    (
      last,
      λ i.
          ap (λ seen. covered seen i) all
          ∙ covered-onto frames [] i
          ∙ or_false_right (covered frames i),
      ap any_fin all ∙ any_fin-onto frames [] ∙ or_false_right (any_fin frames),
    )
