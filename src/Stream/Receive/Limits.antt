-- ===== src/Stream/Receive/Limits.antt =====
-- Flow control of a `stream_receive_state`: nothing is kept past the limit.
use flow_q.Prelude.{ℕ, ◌+◌, ◌-◌, ◌≤◌, ◌<◌, ◌≡◌, inl, inr, refl, arith, max, false, none}
use flow_q.Prelude.{
  List, [], ◌∷◌, length, ltb, ◌&&◌, not, if_cases, if-true, ◌∙◌, ap, sym, le-cases, lt→ltb,
  Bool-cases, u64_max,
}
use flow_q.Frame.{StreamFrame, ResetStreamFrame}
use flow_q.Stream.Receive.{
  StreamReceiveState, StreamReceiveResult, fresh_receive_state, has_value, is_value, largest_of,
  byte_at, range_before,
}
use flow_q.Stream.Receive.Calls.{answered, frame_offset, receive, reset, raise_max_data}
use flow_q.Stream.Receive.Drained.{IsAssembled}
use flow_q.Stream.Receive.Received.{is_ok, receive-IsReceived, byte_at_delivered, get_elem?-some}
use flow_q.Stream.Receive.Events.{
  Event, arrived, stopped, raised, Trace, record_receive, react, run, opened,
}

abbrev pub IsWithin : StreamReceiveState → Type 0
IsWithin s = (i : ℕ) → byte_at s (s.max_data + i) ≡ none

record Limited (s : StreamReceiveState) : Type 0 where
  assembled : IsAssembled s
  within : IsWithin s

-- A frame that ends past the limit is refused.
past_refused :
    (s : StreamReceiveState) (frame : StreamFrame)
    → s.max_data < frame_offset frame + length frame.bytes
    → is_ok (receive s frame).1.error ≡ false
unfolding receive answered
past_refused s frame h =
    let P : StreamReceiveState × StreamReceiveResult → Type 0 = λ d. is_ok d.1.error ≡ false in
    if_cases P s.reset_received (λ t. refl)
      (λ f1.
        if_cases P (ltb (u64_max - length frame.bytes) (frame_offset frame)) (λ t. refl)
          (λ f2.
            ap (λ (d : StreamReceiveState × StreamReceiveResult). is_ok d.1.error)
              (if-true _ (lt→ltb _ _ h))))

receive-Limited :
    (s : StreamReceiveState) (frame : StreamFrame) → Limited s → Limited (receive s frame).0
receive-Limited s frame fine =
    let received = receive-IsReceived s frame fine.assembled in
    let ok = is_ok (receive s frame).1.error in
    let end = frame_offset frame + length frame.bytes in
    record {
      assembled = received.assembled;
      within = λ i.
          ap (λ limit. byte_at (receive s frame).0 (limit + i)) received.same_limit
          ∙ received.bytes_at (s.max_data + i)
          ∙ elim (le-cases end s.max_data) [
            | inl low ↦ ground (arith, low, fine.within i, Bool-cases ok)
            | inr past ↦ ground (arith, past_refused s frame past, fine.within i)
          ];
    }

reset-Limited :
    (s : StreamReceiveState) (frame : ResetStreamFrame) → Limited s → Limited (reset s frame).0
unfolding reset byte_at
reset-Limited s frame fine =
    let P : StreamReceiveState × StreamReceiveResult → Type 0 = λ d. Limited d.0 in
    if_cases P (has_value s.final_size && not (is_value s.final_size frame.final_size)) (λ t. fine)
      (λ f.
        if_cases P (ltb frame.final_size (largest_of s.next_offset s.pending)) (λ t. fine)
          (λ f. record {
            assembled = record { counted = fine.assembled.counted; laid = fine.assembled.laid };
            within = fine.within;
          }))

raise_max_data-Limited :
    (s : StreamReceiveState) (max_data : ℕ) → Limited s → Limited (raise_max_data s max_data)
unfolding raise_max_data byte_at
raise_max_data-Limited s max_data fine = record {
  assembled = record { counted = fine.assembled.counted; laid = fine.assembled.laid };
  within = λ i.
      let at : max s.max_data max_data + i
          ≡ s.max_data + (max s.max_data max_data - s.max_data + i) =
        omega arith in
      ap (byte_at s) at ∙ fine.within (max s.max_data max_data - s.max_data + i);
}

run-Limited : (t : Trace) (events : List Event) → Limited t.state → Limited (run t events).state
unfolding run react record_receive
run-Limited t [] fine = fine
run-Limited t (arrived frame ∷ events) fine =
    run-Limited (react t (arrived frame)) events (receive-Limited t.state frame fine)
run-Limited t (stopped frame ∷ events) fine =
    run-Limited (react t (stopped frame)) events (reset-Limited t.state frame fine)
run-Limited t (raised max_data ∷ events) fine =
    run-Limited (react t (raised max_data)) events (raise_max_data-Limited t.state max_data fine)

opened-Limited : (max_data : ℕ) → Limited (opened max_data).state
unfolding opened fresh_receive_state byte_at range_before
opened-Limited max_data = record {
  assembled = record { counted = refl; laid = tt };
  within = λ i. ground arith;
}

-- Whatever the frames, resets and raises of the limit, no byte is kept at the limit or past it, and
-- the bytes handed out are not more than the limit.
pub run-IsWithin :
    (max_data : ℕ) (events : List Event)
    → IsWithin (run (opened max_data) events).state
      × (length (run (opened max_data) events).state.delivered
          ≤ (run (opened max_data) events).state.max_data)
run-IsWithin max_data events =
    let s = (run (opened max_data) events).state in
    let fine = run-Limited (opened max_data) events (opened-Limited max_data) in
    (
      fine.within,
      elim (le-cases (length s.delivered) s.max_data) [
        | inl h ↦ h
        | inr past ↦
            let there = byte_at_delivered s s.max_data past in
            let at : s.max_data + 0 ≡ s.max_data = omega arith in
            absurd (
              get_elem?-some s.delivered s.max_data past
                (sym there ∙ ap (byte_at s) (sym at) ∙ fine.within 0))
      ],
    )
