-- ===== src/Stream/Receive/Reassembly.antt =====
-- What the calls hand out of the stream the peer sends.
use flow_q.Prelude.{
  ℕ, zero, suc, ◌+◌, ◌-◌, ◌≤◌, ◌<◌, ◌≡◌, ◌≢◌, inl, inr, refl, arith, Bool, true, false, none, some,
}
use flow_q.Prelude.{
  List, [], ◌∷◌, ◌++◌, length, get_elem?, ltb, ◌&&◌, ◌||◌, not, if◌then◌else◌, if_cases, if-true,
  if-false, ◌∙◌, ap, sym, subst, le-cases, Bool-cases,
}
use flow_q.Frame.{StreamFrame, ResetStreamFrame}
use flow_q.Stream.Receive.{
  StreamReceiveState, StreamReceiveResult, fresh_receive_state, has_value, is_value, largest_of,
  byte_at, range_before,
}
use flow_q.Stream.Receive.Calls.{frame_offset, receive, reset, raise_max_data}
use flow_q.Stream.Receive.Layout.{held_below}
use flow_q.Stream.Receive.Drained.{IsAssembled, byte_at_lem}
use flow_q.Stream.Receive.Received.{
  IsReceived, is_ok, covers, receive-IsReceived, byte_at_delivered, get_elem?-some,
}
use flow_q.Stream.Receive.Events.{
  Event, arrived, stopped, raised, Trace, record_receive, react, run, opened, covered, IsSlice,
  AreSlices, IsCoveredPrefix,
}

pub record Reassembles (content : ℕ → ℕ) (t : Trace) : Type 0 where
  pub assembled : IsAssembled t.state
  pub handed_out : t.output ≡ t.state.delivered
  pub bytes_at :
      (i : ℕ) → byte_at t.state i ≡ (if covered t.accepted i then some (content i) else none)

get_elem?-IsSlice :
    (content : ℕ → ℕ) (offset : ℕ) (bytes : List ℕ) (i : ℕ)
    → IsSlice content offset bytes
    → i < length bytes
    → get_elem? bytes i ≡ some (content (offset + i))
get_elem?-IsSlice content offset [] i slice h = absurd (omega (arith, h))
get_elem?-IsSlice content offset (b ∷ bytes) zero (e, slice) h =
    ap some (e ∙ ap content (omega arith))
get_elem?-IsSlice content offset (b ∷ bytes) (suc i) (e, slice) h =
    get_elem?-IsSlice content (suc offset) bytes i slice (omega (arith, h))
    ∙ ap (λ at. some (content at)) (omega arith)

covers-IsSlice :
    (content : ℕ → ℕ) (frame : StreamFrame) (i : ℕ)
    → IsSlice content (frame_offset frame) frame.bytes
    → covers frame i ≡ true
    → get_elem? frame.bytes (i - frame_offset frame) ≡ some (content i)
covers-IsSlice content frame i slice inside =
    get_elem?-IsSlice content (frame_offset frame) frame.bytes (i - frame_offset frame) slice
      (ground (arith, inside))
    ∙ ap (λ at. some (content at)) (ground (arith, inside))

-- One frame more.
received_at :
    (content : ℕ → ℕ) (accepted : List StreamFrame) (frame : StreamFrame) (fine : Bool) (i : ℕ)
    → IsSlice content (frame_offset frame) frame.bytes
    → (if fine && covers frame i
        then get_elem? frame.bytes (i - frame_offset frame)
        else if covered accepted i
        then some (content i)
        else none)
      ≡ (if covered (if fine then frame ∷ accepted else accepted) i then some (content i) else none)
received_at content accepted frame false i slice = refl
received_at content accepted frame true i slice = elim (Bool-cases (covers frame i)) [
  | inl inside ↦
      if-true _ inside
      ∙ covers-IsSlice content frame i slice inside
      ∙ sym (if-true _ (ap (λ test. test || covered accepted i) inside))
  | inr outside ↦
      if-false _ outside
      ∙ ap (λ test. if test || covered accepted i then some (content i) else none) (sym outside)
]

pub record_receive-Reassembles :
    (content : ℕ → ℕ) (t : Trace) (frame : StreamFrame)
    (d : StreamReceiveState × StreamReceiveResult)
    → Reassembles content t
    → IsSlice content (frame_offset frame) frame.bytes
    → IsReceived t.state frame d
    → Reassembles content (record_receive t frame d)
unfolding record_receive
record_receive-Reassembles content t frame d before slice received = record {
  assembled = received.assembled;
  handed_out = ap (λ front. front ++ d.1.bytes) before.handed_out ∙ sym received.delivered_more;
  bytes_at = λ i.
      received.bytes_at i
      ∙ ap
          (λ other.
            if is_ok d.1.error && covers frame i
            then get_elem? frame.bytes (i - frame_offset frame)
            else other)
          (before.bytes_at i)
      ∙ received_at content t.accepted frame (is_ok d.1.error) i slice;
}

-- Reading no bytes, a reset changes none.
reset-Reassembles :
    (content : ℕ → ℕ) (t : Trace) (frame : ResetStreamFrame)
    → Reassembles content t
    → Reassembles content (record t { state = (reset t.state frame).0 })
unfolding reset byte_at
reset-Reassembles content t frame before =
    let same : Reassembles content t = record {
      assembled = before.assembled;
      handed_out = before.handed_out;
      bytes_at = before.bytes_at;
    } in
    let P : StreamReceiveState × StreamReceiveResult → Type 0 =
      λ d. Reassembles content (record t { state = d.0 }) in
    if_cases P (has_value t.state.final_size && not (is_value t.state.final_size frame.final_size))
      (λ f. same)
      (λ f.
        if_cases P (ltb frame.final_size (largest_of t.state.next_offset t.state.pending))
          (λ f. same)
          (λ f. record {
            assembled = record { counted = before.assembled.counted; laid = before.assembled.laid };
            handed_out = before.handed_out;
            bytes_at = before.bytes_at;
          }))

raise_max_data-Reassembles :
    (content : ℕ → ℕ) (t : Trace) (max_data : ℕ)
    → Reassembles content t
    → Reassembles content (record t { state = raise_max_data t.state max_data })
unfolding raise_max_data byte_at
raise_max_data-Reassembles content t max_data before = record {
  assembled = record { counted = before.assembled.counted; laid = before.assembled.laid };
  handed_out = before.handed_out;
  bytes_at = before.bytes_at;
}

run-Reassembles :
    (content : ℕ → ℕ) (t : Trace) (events : List Event)
    → Reassembles content t
    → AreSlices content events
    → Reassembles content (run t events)
unfolding run react
run-Reassembles content t [] before slices = before
run-Reassembles content t (arrived frame ∷ events) before (slice, slices) =
    run-Reassembles content (react t (arrived frame)) events
      (record_receive-Reassembles content t frame (receive t.state frame) before slice
        (receive-IsReceived t.state frame before.assembled))
      slices
run-Reassembles content t (stopped frame ∷ events) before slices =
    run-Reassembles content (react t (stopped frame)) events
      (reset-Reassembles content t frame before) slices
run-Reassembles content t (raised max_data ∷ events) before slices =
    run-Reassembles content (react t (raised max_data)) events
      (raise_max_data-Reassembles content t max_data before) slices

pub opened-Reassembles : (content : ℕ → ℕ) (max_data : ℕ) → Reassembles content (opened max_data)
unfolding opened fresh_receive_state byte_at range_before
opened-Reassembles content max_data = record {
  assembled = record { counted = refl; laid = tt };
  handed_out = refl;
  bytes_at = λ i. ground arith;
}

covered_some :
    (content : ℕ → ℕ) (test : Bool) (i : ℕ)
    → (if test then some (content i) else none) ≢ none
    → test ≡ true
covered_some content true i e = refl
covered_some content false i e = absurd (e refl)

covered_none :
    (content : ℕ → ℕ) (test : Bool) (i : ℕ)
    → (if test then some (content i) else none) ≡ none
    → test ≡ false
covered_none content true i e = absurd (cc e)
covered_none content false i e = refl

-- The byte that is due next is not there.
due_none : (s : StreamReceiveState) → IsAssembled s → byte_at s (length s.delivered) ≡ none
due_none s ok =
    byte_at_lem s (suc s.next_offset) (length s.delivered) ok.laid
    ∙ ground (
      arith,
      held_below (suc s.next_offset) s.pending (length s.delivered) ok.laid
          (omega (arith, ok.counted)),
    )

get_elem?-past : (xs : List ℕ) (i : ℕ) → length xs ≤ i → get_elem? xs i ≡ none
get_elem?-past [] i h = refl
get_elem?-past (x ∷ xs) zero h = absurd (omega (arith, h))
get_elem?-past (x ∷ xs) (suc i) h = get_elem?-past xs i (omega (arith, h))

pub Reassembles-IsCoveredPrefix :
    (content : ℕ → ℕ) (t : Trace)
    → Reassembles content t
    → IsCoveredPrefix content t.accepted t.output
Reassembles-IsCoveredPrefix content t fine =
    subst (IsCoveredPrefix content t.accepted) (sym fine.handed_out) (
      λ i. elim (le-cases (length t.state.delivered) i) [
        | inl past ↦ get_elem?-past t.state.delivered i past ∙ ground (arith, past)
        | inr there ↦
            let byte = sym (byte_at_delivered t.state i there) ∙ fine.bytes_at i in
            let inside =
              covered_some content (covered t.accepted i) i
                (λ nothing. get_elem?-some t.state.delivered i there (byte ∙ nothing)) in
            byte ∙ ground (arith, there, inside)
      ],
      covered_none content (covered t.accepted (length t.state.delivered))
          (length t.state.delivered)
          (sym (fine.bytes_at (length t.state.delivered)) ∙ due_none t.state fine.assembled),
    )

-- Where every STREAM frame that arrives has a slice of one stream, in any order, split, repeated and
-- overlapping in any way, and between resets and raises of the limit, the bytes handed out are, one
-- behind the other, the longest front of the stream that the frames not refused cover.
pub run-IsCoveredPrefix :
    (content : ℕ → ℕ) (max_data : ℕ) (events : List Event)
    → AreSlices content events
    → IsCoveredPrefix content
        (run (opened max_data) events).accepted
        (run (opened max_data) events).output
run-IsCoveredPrefix content max_data events slices =
    Reassembles-IsCoveredPrefix content (run (opened max_data) events) (
      run-Reassembles content (opened max_data) events (opened-Reassembles content max_data) slices)
