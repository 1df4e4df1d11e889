-- ===== src/Stream/Receive/Accepted.antt =====
-- `receive` refuses no frame of a stream within its limit.
use flow_q.Prelude.{ℕ, suc, ◌+◌, ◌-◌, ◌≤◌, ◌≡◌, refl, arith, Bool, true, false, Option, none, some}
use flow_q.Prelude.{
  List, [], ◌∷◌, length, ltb, ◌&&◌, ◌||◌, not, if◌then◌else◌, if-false, ◌∙◌, ap, u64_max,
}
use flow_q.Frame.{StreamFrame}
use flow_q.Stream.Receive.{
  StreamReceiveState, has_value, is_value, byte_at, differs, conflicts, buffer_new_suffix,
}
use flow_q.Stream.Receive.Calls.{answered, frame_offset, exceeds, accept, receive}
use flow_q.Stream.Receive.Layout.{LaidOut-weaken}
use flow_q.Stream.Receive.Merged.{buffer_new_suffix-IsBuffered}
use flow_q.Stream.Receive.Drained.{IsAssembled, drain_contiguous-IsDrained}
use flow_q.Stream.Receive.Events.{Trace, covered, IsSlice}
use flow_q.Stream.Receive.Reassembly.{Reassembles}

-- A frame of the stream with the `size` bytes of `content`.
abbrev pub IsPart : (ℕ → ℕ) → ℕ → StreamFrame → Type 0
IsPart content size frame =
    IsSlice content (frame_offset frame) frame.bytes
    × (frame_offset frame + length frame.bytes ≤ size)
    × ((if frame.fin then frame_offset frame + length frame.bytes else size) ≡ size)

abbrev pub AreParts : (ℕ → ℕ) → ℕ → List StreamFrame → Type 0
AreParts content size [] = Unit {0}
AreParts content size (frame ∷ frames) = IsPart content size frame × AreParts content size frames

abbrev pub any_fin : List StreamFrame → Bool
any_fin [] = false
any_fin (frame ∷ frames) = frame.fin || any_fin frames

abbrev pub size_of : ℕ → List StreamFrame → Option ℕ
size_of size frames = if any_fin frames then some size else none

-- A receiver that has had frames of the stream only.
pub record Accepts (content : ℕ → ℕ) (size : ℕ) (t : Trace) : Type 0 where
  pub reassembles : Reassembles content t
  pub not_reset : t.state.reset_received ≡ false
  pub within : size ≤ t.state.max_data
  pub final : t.state.final_size ≡ size_of size t.accepted

differs-if : (test : Bool) (a b : ℕ) → b ≡ a → differs (if test then some a else none) b ≡ false
differs-if true a b e = ground (arith, e)
differs-if false a b e = refl

conflicts_none :
    (content : ℕ → ℕ) (t : Trace) (offset : ℕ) (bytes : List ℕ)
    → Reassembles content t
    → IsSlice content offset bytes
    → conflicts t.state offset bytes ≡ false
unfolding conflicts
conflicts_none content t offset [] fine slice = refl
conflicts_none content t offset (b ∷ bytes) fine (e, slice) =
    let here : differs (byte_at t.state offset) b ≡ false =
      ap (λ o. differs o b) (fine.bytes_at offset)
      ∙ differs-if (covered t.accepted offset) (content offset) b e in
    ap (λ test. test || conflicts t.state (suc offset) bytes) here
    ∙ conflicts_none content t (suc offset) bytes fine slice

-- The tests on the final size.
size_kept :
    (fin seen : Bool) (size end : ℕ)
    → (if fin then end else size) ≡ size
    → (fin
        && has_value (if seen then some size else none)
        && not (is_value (if seen then some size else none) end))
      ≡ false
size_kept false seen size end e = refl
size_kept true false size end e = refl
size_kept true true size end e = ground (arith, e)

size_within :
    (fin seen : Bool) (size end : ℕ)
    → end ≤ size
    → exceeds end (if fin then some end else if seen then some size else none) ≡ false
size_within false false size end h = refl
size_within false true size end h = ground (arith, h)
size_within true seen size end h = ground arith

size_proposed :
    (fin seen : Bool) (size end : ℕ)
    → (if fin then end else size) ≡ size
    → (if fin then some end else if seen then some size else none)
      ≡ (if fin || seen then some size else none)
size_proposed false seen size end e = refl
size_proposed true seen size end e = ap some e

pub accept-final_size :
    (s : StreamReceiveState) (offset : ℕ) (bytes : List ℕ) (final_size : Option ℕ)
    → IsAssembled s
    → ((accept s offset bytes final_size).0.final_size ≡ final_size)
      × ((accept s offset bytes final_size).1.error ≡ none)
unfolding accept answered
accept-final_size s offset bytes final_size ok =
    let buffered =
      buffer_new_suffix-IsBuffered s.next_offset offset bytes s.pending
        (LaidOut-weaken _ s.next_offset s.pending (omega arith) ok.laid) in
    (
      (drain_contiguous-IsDrained (record s { final_size = final_size })
          (buffer_new_suffix s.next_offset s.pending offset bytes) ok.counted
          buffered.0).same_final,
      refl,
    )

-- No test of `receive` refuses a frame of the stream.
pub receive-accept :
    (content : ℕ → ℕ) (size : ℕ) (t : Trace) (frame : StreamFrame)
    → size ≤ u64_max
    → Accepts content size t
    → IsPart content size frame
    → receive t.state frame
      ≡ accept t.state (frame_offset frame) frame.bytes (size_of size (frame ∷ t.accepted))
unfolding receive
receive-accept content size t frame word fine (slice, end_within, ends) =
    let offset = frame_offset frame in
    let end = offset + length frame.bytes in
    let final = fine.final in
    let seen = any_fin t.accepted in
    if-false _ fine.not_reset
    ∙ if-false {test = ltb (u64_max - length frame.bytes) offset} _
        (ground (arith, end_within, word))
    ∙ if-false {test = ltb t.state.max_data end} _ (ground (arith, end_within, fine.within))
    ∙ if-false _ (
        ap (λ (o : Option ℕ). frame.fin && has_value o && not (is_value o end)) final
        ∙ size_kept frame.fin seen size end ends)
    ∙ if-false _ (
        ap (λ (o : Option ℕ). exceeds end (if frame.fin then some end else o)) final
        ∙ size_within frame.fin seen size end end_within)
    ∙ if-false _ (conflicts_none content t offset frame.bytes fine.reassembles slice)
    ∙ ap (accept t.state offset frame.bytes) (
        ap (λ (o : Option ℕ). if frame.fin then some end else o) final
        ∙ size_proposed frame.fin seen size end ends)
