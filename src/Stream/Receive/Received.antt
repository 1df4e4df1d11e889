-- ===== src/Stream/Receive/Received.antt =====
-- `receive` as a whole: what one STREAM frame does to the bytes that are there.
use flow_q.Prelude.{
  or-eq-false, ◌≢◌, ℕ, zero, suc, ◌+◌, ◌-◌, ◌≤◌, ◌<◌, ◌≡◌, ◌⊎◌, inl, inr, refl, arith, Bool, true,
  false, Option, none, some,
}
use flow_q.Prelude.{
  List, [], ◌∷◌, ◌++◌, length, get_elem?, ltb, leb, ◌&&◌, not, if◌then◌else◌, if_cases, if-true,
  ◌∙◌, ap, sym, subst, le-cases, lt→ltb, Error, u64_max,
}
use mathlib.Core.List.{append-nil}
use flow_q.Frame.{StreamFrame}
use flow_q.Stream.Receive.{
  has_value, is_value, Pending, StreamReceiveState, StreamReceiveResult, byte_at, conflicts,
  differs, buffer_new_suffix,
}
use flow_q.Stream.Receive.Calls.{exceeds, answered, failed, frame_offset, accept, receive}
use flow_q.Stream.Receive.Layout.{LaidOut-weaken}
use flow_q.Stream.Receive.Merged.{IsBuffered, buffer_new_suffix-IsBuffered}
use flow_q.Stream.Receive.Drained.{IsAssembled, byte_at_lem, drain_contiguous-IsDrained}

abbrev pub is_ok : Option Error → Bool
is_ok none = true
is_ok (some e) = false

abbrev pub covers : StreamFrame → ℕ → Bool
covers frame i = leb (frame_offset frame) i && ltb i (frame_offset frame + length frame.bytes)

-- The state and the result of a call of `receive` for `frame` in `s`.
pub record IsReceived (s : StreamReceiveState) (frame : StreamFrame)
    (d : StreamReceiveState × StreamReceiveResult) : Type 0 where
  pub assembled : IsAssembled d.0
  pub delivered_more : d.0.delivered ≡ s.delivered ++ d.1.bytes
  pub bytes_at :
      (i : ℕ)
      → byte_at d.0 i ≡ (
          if is_ok d.1.error && covers frame i
          then get_elem? frame.bytes (i - frame_offset frame)
          else byte_at s i)
  pub same_limit : d.0.max_data ≡ s.max_data
  pub same_reset : d.0.reset_received ≡ s.reset_received

differs_not : (o : Option ℕ) (b : ℕ) → differs o b ≡ false → (o ≡ none) ⊎ (o ≡ some b)
differs_not none b h = inl refl
differs_not (some a) b h = inr (ap some (ground arith))

-- Where no byte conflicts, a byte that is there is the new one.
no_conflict :
    (s : StreamReceiveState) (offset : ℕ) (bytes : List ℕ) (i : ℕ)
    → conflicts s offset bytes ≡ false
    → offset ≤ i
    → i < offset + length bytes
    → (byte_at s i ≡ none) ⊎ (byte_at s i ≡ get_elem? bytes (i - offset))
unfolding conflicts
no_conflict s offset [] i agree lo hi = absurd (omega (arith, lo, hi))
no_conflict s offset (b ∷ bytes) i agree lo hi =
    let (here, later) =
      or-eq-false (differs (byte_at s offset) b) (conflicts s (suc offset) bytes) agree in
    let P : ℕ → ℕ → Type 0 =
      λ at index. (byte_at s at ≡ none) ⊎ (byte_at s at ≡ get_elem? (b ∷ bytes) index) in
    elim (le-cases (suc offset) i) [
      | inl past ↦
          let index : suc (i - suc offset) ≡ i - offset = omega (arith, past) in
          subst (P i) index (no_conflict s (suc offset) bytes i later past (omega (arith, hi)))
      | inr first ↦
          let at : offset ≡ i = omega (arith, lo, first) in
          let index : zero ≡ offset - offset = omega arith in
          subst (λ k. P k (k - offset)) at
            (subst (P offset) index (differs_not (byte_at s offset) b here))
    ]

pub byte_at_delivered :
    (s : StreamReceiveState) (i : ℕ)
    → i < length s.delivered
    → byte_at s i ≡ get_elem? s.delivered i
unfolding byte_at
byte_at_delivered s i h = if-true _ (lt→ltb i (length s.delivered) h)

pub get_elem?-some : (xs : List ℕ) (i : ℕ) → i < length xs → get_elem? xs i ≢ none
get_elem?-some [] i h e = omega (arith, h)
get_elem?-some (x ∷ xs) zero h e = cc e
get_elem?-some (x ∷ xs) (suc i) h e = get_elem?-some xs i (omega (arith, h)) e

-- The bytes behind the tests: those due already keep their value, the others take the new one.
accept-bytes :
    (s : StreamReceiveState) (offset : ℕ) (bytes : List ℕ)
    → IsAssembled s
    → conflicts s offset bytes ≡ false
    → (pending : Pending) → IsBuffered s.next_offset offset bytes s.pending pending
    → (i : ℕ)
    → byte_at (record s { pending = pending }) i ≡ (
        if leb offset i && ltb i (offset + length bytes)
        then get_elem? bytes (i - offset)
        else byte_at s i)
accept-bytes s offset bytes ok agree pending (laid, new_at) i =
    let before = byte_at_lem s (suc s.next_offset) i ok.laid in
    byte_at_lem (record s { pending = pending }) s.next_offset i laid
    ∙ elim (le-cases (length s.delivered) i) [
      | inl late ↦ ground (arith, late, before, new_at i, ok.counted)
      | inr due ↦
          if-true _ (lt→ltb i (length s.delivered) due)
          ∙ sym (byte_at_delivered s i due)
          ∙ if_cases (λ o. byte_at s i ≡ o) (leb offset i && ltb i (offset + length bytes))
              (λ inside.
                elim (no_conflict s offset bytes i agree (ground (arith, inside))
                  (ground (arith, inside))) [
                    | inl nothing ↦ absurd (
                        get_elem?-some s.delivered i due
                          (sym (byte_at_delivered s i due) ∙ nothing))
                    | inr same ↦ same
                  ])
              (λ outside. refl)
    ]

failed-IsReceived :
    (s : StreamReceiveState) (frame : StreamFrame) (error : Error)
    → IsAssembled s
    → IsReceived s frame (failed s error)
unfolding answered
failed-IsReceived s frame error ok = record {
  assembled = ok;
  delivered_more = sym (append-nil s.delivered);
  bytes_at = λ i. refl;
  same_limit = refl;
  same_reset = refl;
}

accept-IsReceived :
    (s : StreamReceiveState) (frame : StreamFrame) (final_size : Option ℕ)
    → IsAssembled s
    → conflicts s (frame_offset frame) frame.bytes ≡ false
    → IsReceived s frame (accept s (frame_offset frame) frame.bytes final_size)
unfolding accept answered byte_at
accept-IsReceived s frame final_size ok agree =
    let offset = frame_offset frame in
    let pending = buffer_new_suffix s.next_offset s.pending offset frame.bytes in
    let buffered =
      buffer_new_suffix-IsBuffered s.next_offset offset frame.bytes s.pending
        (LaidOut-weaken (suc s.next_offset) s.next_offset s.pending (omega arith) ok.laid) in
    let drained =
      drain_contiguous-IsDrained (record s { final_size = final_size }) pending ok.counted
        buffered.0 in
    record {
      assembled = drained.assembled;
      delivered_more = drained.delivered_more;
      bytes_at =
          λ i. drained.same_bytes i ∙ accept-bytes s offset frame.bytes ok agree pending buffered i;
      same_limit = drained.same_limit;
      same_reset = drained.same_reset;
    }

-- A test that refuses the frame, in front of the rest of `receive`.
guarded :
    (s : StreamReceiveState) (frame : StreamFrame) (test : Bool) (error : Error)
    {d : StreamReceiveState × StreamReceiveResult}
    → IsAssembled s
    → (test ≡ false → IsReceived s frame d)
    → IsReceived s frame (if test then failed s error else d)
guarded s frame test error ok passed =
    if_cases (IsReceived s frame) test (λ t. failed-IsReceived s frame error ok) passed

-- A frame that is refused leaves every byte as it was; one that is accepted puts its bytes at their
-- offsets, and the bytes handed out are those that the delivered bytes grow by.
pub receive-IsReceived :
    (s : StreamReceiveState) (frame : StreamFrame)
    → IsAssembled s
    → IsReceived s frame (receive s frame)
unfolding receive
receive-IsReceived s frame ok =
    let offset = frame_offset frame in
    let end = offset + length frame.bytes in
    guarded s frame s.reset_received _ ok (λ f1.
      guarded s frame (ltb (u64_max - length frame.bytes) offset) _ ok (λ f2.
        guarded s frame (ltb s.max_data end) _ ok (λ f3.
          guarded s frame (frame.fin && has_value s.final_size && not (is_value s.final_size end)) _
            ok
            (λ f4.
              guarded s frame (exceeds end (if frame.fin then some end else s.final_size)) _ ok
                (λ f5. guarded s frame (conflicts s offset frame.bytes) _ ok (λ agree.
                  accept-IsReceived s frame (if frame.fin then some end else s.final_size) ok
                    agree))))))
