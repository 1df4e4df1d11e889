-- ===== src/Frame/RoundTrip/Streams.antt =====
-- STREAM frames, whose type says which fields are there.
use flow_q.Prelude.{ℕ, ◌≡◌, refl, arith, not, bit_and, ◌==◌}
use flow_q.Prelude.{List, [], ◌++◌, length, Bool, true, false, ◌⊎◌, inl, inr, if◌then◌else◌}
use flow_q.Prelude.{ok, or_fail-eq-ok, bind-eq-ok, ok-injective, String, some}
use flow_q.Varint.Bytes.{varint_bytes}
use flow_q.Frame.{StreamFrame, stream}
use flow_q.Frame.Cursor.{
  Encodable, append_varints-eq-some, append_varint-eq-some, read_varint_at-bytes,
}
use flow_q.Frame.Encode.{encode_stream, append_if, stream_type}
use flow_q.Frame.Decode.{decode_frame, decode_body, decode_stream, read_if}
use flow_q.Frame.RoundTrip.Header.{decode_frame-type, read_bytes-append}
use mathlib.Core.List.{append_assoc, append-nil}

decode_body-stream :
    (offset_present length_present fin : Bool) (input : List ℕ)
    → decode_body (stream_type offset_present length_present fin) input
      ≡ decode_stream (stream_type offset_present length_present fin) input
unfolding decode_body
decode_body-stream false false false input = refl
decode_body-stream false false true input = refl
decode_body-stream false true false input = refl
decode_body-stream false true true input = refl
decode_body-stream true false false input = refl
decode_body-stream true false true input = refl
decode_body-stream true true false input = refl
decode_body-stream true true true input = refl

-- The decoder reads each flag back from the type.
stream_type_bits :
    (offset_present length_present fin : Bool)
    → (not (bit_and (stream_type offset_present length_present fin) 0x04 == 0) ≡ offset_present)
      × (not (bit_and (stream_type offset_present length_present fin) 0x02 == 0) ≡ length_present)
      × (not (bit_and (stream_type offset_present length_present fin) 0x01 == 0) ≡ fin)
stream_type_bits false false false = (refl, refl, refl)
stream_type_bits false false true = (refl, refl, refl)
stream_type_bits false true false = (refl, refl, refl)
stream_type_bits false true true = (refl, refl, refl)
stream_type_bits true false false = (refl, refl, refl)
stream_type_bits true false true = (refl, refl, refl)
stream_type_bits true true false = (refl, refl, refl)
stream_type_bits true true true = (refl, refl, refl)

abbrev pub frame_of : ℕ → ℕ → Bool → Bool → Bool → List ℕ → StreamFrame
frame_of stream_id offset offset_present length_present fin bytes = record {
  stream_id = stream_id;
  offset = offset;
  offset_present = offset_present;
  length_present = length_present;
  fin = fin;
  bytes = bytes;
}

abbrev present_bytes : Bool → ℕ → List ℕ
present_bytes b v = if b then varint_bytes v else []

append_if-eq-some :
    (present : Bool) (output : List ℕ) (v : ℕ) {more : List ℕ}
    → append_if present output v ≡ some more
    → (more ≡ output ++ present_bytes present v) × (present ≡ true → Encodable v)
append_if-eq-some true output v e =
    let (small, w) = append_varint-eq-some output v e in (w, λ p. small)
append_if-eq-some false output v e = (ground (arith, append-nil output), λ p. absurd (cc p))

read_if-bytes :
    (present : Bool) (message : String) (v default : ℕ) (rest : List ℕ)
    → (present ≡ true → Encodable v)
    → read_if present message default (present_bytes present v ++ rest)
      ≡ ok (if present then v else default, rest)
read_if-bytes true message v default rest h = simp (read_varint_at-bytes v (h refl))
read_if-bytes false message v default rest h = refl

announced_size :
    (present : Bool) (xs rest : List ℕ)
    → (present ≡ true) ⊎ (rest ≡ [])
    → (if present then length xs else length (present_bytes present (length xs) ++ (xs ++ rest)))
      ≡ length xs
announced_size true xs rest h = refl
announced_size false xs rest (inl h) = absurd (cc h)
announced_size false xs rest (inr h) = rw (h, append-nil) refl

-- A frame without a length takes all that follows; one without an offset stands at 0.
pub stream_round_fields :
    (stream_id offset : ℕ) (offset_present length_present fin : Bool) (xs rest : List ℕ)
    {bytes : List ℕ}
    → (offset_present ≡ true) ⊎ (offset ≡ 0)
    → (length_present ≡ true) ⊎ (rest ≡ [])
    → encode_stream (frame_of stream_id offset offset_present length_present fin xs) ≡ ok bytes
    → decode_frame (bytes ++ rest)
      ≡ ok (stream (frame_of stream_id offset offset_present length_present fin xs), rest)
unfolding encode_stream decode_stream
stream_round_fields id off op lp fin xs rest start end e =
    let (output, e₁, e₂) = bind-eq-ok _ _ e in
    let (output', e₃, e₄) = bind-eq-ok _ _ e₂ in
    let (output'', e₅, e₆) = bind-eq-ok _ _ e₄ in
    let (all, w) = append_varints-eq-some [] _ (or_fail-eq-ok _ _ e₁) in
    let (w', fits) = append_if-eq-some op output off (or_fail-eq-ok _ _ e₃) in
    let (w'', fits') = append_if-eq-some lp output' (length xs) (or_fail-eq-ok _ _ e₅) in
    let (offset_bit, length_bit, fin_bit) = stream_type_bits op lp fin in
    let behind = present_bytes lp (length xs) ++ (xs ++ rest) in
    let whole = announced_size lp xs rest end in
    let origin : (if op then off else 0) ≡ off = ground arith in
    rw (← ok-injective e₆, w'', w', w)
      (simp (
        append_assoc,
        decode_frame-type (stream_type op lp fin) all.0,
        decode_body-stream op lp fin,
        offset_bit,
        length_bit,
        fin_bit,
        read_varint_at-bytes id all.1.0,
        read_if-bytes op "truncated STREAM offset" off 0 behind fits,
        origin,
        read_if-bytes lp "truncated STREAM length" (length xs) (length behind) (xs ++ rest) fits',
        whole,
        read_bytes-append,
      ))
