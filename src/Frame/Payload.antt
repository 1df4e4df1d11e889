-- ===== src/Frame/Payload.antt =====
-- A whole payload comes back: no frame of it runs into the next.
use flow_q.Prelude.{ℕ, zero, suc, ◌≤◌, ◌≡◌, refl, ◌∙◌, sym, ap, arith, inl, inr}
use flow_q.Prelude.{some, List, [], ◌∷◌, ◌++◌, length, ok, ok-injective}
use flow_q.Prelude.{bind-eq-ok, length-append, subst}
use flow_q.Frame.{Frame, padding, stream}
use flow_q.Frame.Encode.{encode_frame}
use flow_q.Frame.Decode.{decode_frame, decode_body, decode_padding, decode_loop, decode_frames}
use flow_q.Frame.WellFormed.{
  IsWellFormed, MayFollow, MayPrecede, NotZeroFirst, IsPadding, encode_payload, IsWellFormedPayload,
}
use flow_q.Frame.Cursor.{read_varint_at-nil}
use flow_q.Varint.Bytes.{varint_bytes}
use mathlib.Core.List.{append_assoc, append-nil}
use flow_q.Frame.RoundTrip.{decode_frame-encode_frame}
use flow_q.Frame.RoundTrip.Header.{decode_frame-type}

MayFollow-nil : (f : Frame) → MayFollow f []
MayFollow-nil (padding count) = tt
MayFollow-nil (stream f) = inr refl
MayFollow-nil _ = tt

decode_frame-nil : (p : Frame × List ℕ) → ¬ (decode_frame [] ≡ ok p)
unfolding decode_frame
decode_frame-nil p e = cc read_varint_at-nil

decode_padding-IsPadding : (count : ℕ) (input : List ℕ) → IsPadding (decode_padding count input).0
unfolding decode_padding
decode_padding-IsPadding count [] = tt
decode_padding-IsPadding count (zero ∷ input) = decode_padding-IsPadding (suc count) input
decode_padding-IsPadding count (suc b ∷ input) = tt

decode_frame-zero :
    (input : List ℕ) (f : Frame) (rest : List ℕ)
    → decode_frame (zero ∷ input) ≡ ok (f, rest)
    → IsPadding f
unfolding decode_body varint_bytes
decode_frame-zero input f rest e =
    subst IsPadding
      (ap (λ (p : Frame × List ℕ). p.0)
        (ok-injective (sym (decode_frame-type 0x00 (omega arith) input) ∙ e)))
      (decode_padding-IsPadding 1 input)

-- An encoding is not empty, and only padding begins with a zero byte.
encoding_head :
    (f : Frame) (bytes more : List ℕ)
    → ¬ IsPadding f
    → decode_frame (bytes ++ []) ≡ ok (f, [])
    → NotZeroFirst (bytes ++ more)
encoding_head f [] more np e = absurd (decode_frame-nil _ e)
encoding_head f (zero ∷ bytes) more np e = absurd (np (decode_frame-zero (bytes ++ []) f [] e))
encoding_head f (suc b ∷ bytes) more np e = omega arith

encoding_filled :
    (f : Frame) (bytes : List ℕ) → decode_frame (bytes ++ []) ≡ ok (f, []) → 1 ≤ length bytes
encoding_filled f [] e = absurd (decode_frame-nil _ e)
encoding_filled f (b ∷ bytes) e = omega arith

encode_payload-nil : {bytes : List ℕ} → encode_payload [] ≡ ok bytes → bytes ≡ []
unfolding encode_payload
encode_payload-nil e = sym (ok-injective e)

decode_loop-nil : (fuel : ℕ) (frames : List Frame) → decode_loop fuel frames [] ≡ some (ok frames)
unfolding decode_loop
decode_loop-nil zero frames = refl
decode_loop-nil (suc fuel) frames = refl

encode_payload-cons :
    (f : Frame) (fs : List Frame) {bytes : List ℕ}
    → encode_payload (f ∷ fs) ≡ ok bytes
    → (first : List ℕ) × (rest : List ℕ) × (encode_frame f ≡ ok first)
      × (encode_payload fs ≡ ok rest)
      × (bytes ≡ first ++ rest)
unfolding encode_payload
encode_payload-cons f fs e =
    let (first, e₁, e₂) = bind-eq-ok _ _ e in
    let (rest, e₃, e₄) = bind-eq-ok _ _ e₂ in (first, rest, e₁, e₃, sym (ok-injective e₄))

payload_head :
    (g : Frame) (fs : List Frame) {bytes : List ℕ}
    → ¬ IsPadding g
    → IsWellFormed g
    → encode_payload (g ∷ fs) ≡ ok bytes
    → NotZeroFirst bytes
payload_head g fs np h e =
    let (first, rest, e₁, e₂, w) = encode_payload-cons g fs e in
    rw w
      (encoding_head g first rest np (decode_frame-encode_frame g [] first h (MayFollow-nil g) e₁))

MayPrecede-MayFollow :
    (f : Frame) (fs : List Frame) (bytes : List ℕ)
    → MayPrecede f fs
    → IsWellFormedPayload fs
    → encode_payload fs ≡ ok bytes
    → MayFollow f bytes
MayPrecede-MayFollow f [] bytes p h e = rw (encode_payload-nil e) (MayFollow-nil f)
MayPrecede-MayFollow (padding count) (g ∷ fs) bytes p h e = payload_head g fs p h.0 e
MayPrecede-MayFollow (stream f) (g ∷ fs) bytes p h e = inl p
MayPrecede-MayFollow _ (g ∷ fs) bytes p h e = tt

decode_loop_step :
    (fuel : ℕ) (frames : List Frame) (input : List ℕ) (f : Frame) (rest : List ℕ)
    → decode_frame input ≡ ok (f, rest)
    → length input ≤ fuel
    → (fuel' : ℕ) × (fuel ≡ suc fuel')
      × (decode_loop fuel frames input ≡ decode_loop fuel' (frames ++ (f ∷ [])) rest)
unfolding decode_loop
decode_loop_step fuel frames [] f rest e h = absurd (decode_frame-nil _ e)
decode_loop_step zero frames (b ∷ input) f rest e h = absurd (omega arith)
decode_loop_step (suc fuel) frames (b ∷ input) f rest e h = (fuel, refl, rw (e, decode_loop))

decode_loop-payload :
    (fs : List Frame) (fuel : ℕ) (frames : List Frame) (bytes : List ℕ)
    → IsWellFormedPayload fs
    → encode_payload fs ≡ ok bytes
    → length bytes ≤ fuel
    → decode_loop fuel frames bytes ≡ some (ok (frames ++ fs))
decode_loop-payload [] fuel frames bytes h e enough =
    rw (encode_payload-nil e, append-nil) (decode_loop-nil fuel frames)
decode_loop-payload (f ∷ fs) fuel frames bytes h e enough =
    let (first, rest, e₁, e₂, w) = encode_payload-cons f fs e in
    let follows = MayPrecede-MayFollow f fs rest h.1 h.2 e₂ in
    let round = decode_frame-encode_frame f rest first h.0 follows e₁ in
    let filled =
      encoding_filled f first (decode_frame-encode_frame f [] first h.0 (MayFollow-nil f) e₁) in
    let (fuel', less, step) =
      decode_loop_step fuel frames (first ++ rest) f rest round (rw w at enough) in
    rw (w, step)
      (decode_loop-payload fs fuel' (frames ++ (f ∷ [])) rest h.2 e₂
          (omega (arith, rw (w, less) at enough, length-append first rest, filled))
        ∙ ap (λ (t : List Frame). some (ok t)) (append_assoc frames (f ∷ []) fs))

payload_filled :
    (f : Frame) (fs : List Frame) {bytes : List ℕ}
    → IsWellFormed f
    → encode_payload (f ∷ fs) ≡ ok bytes
    → 1 ≤ length bytes
payload_filled f fs h e =
    let (first, rest, e₁, e₂, w) = encode_payload-cons f fs e in
    let filled =
      encoding_filled f first (decode_frame-encode_frame f [] first h (MayFollow-nil f) e₁) in
    omega (arith, filled, ap length w, length-append first rest)

-- A payload of one or more frames that encodes decodes to the same frames. Each frame is well formed,
-- no run of padding follows another, and a STREAM frame without a length field is the last.
pub decode_frames-encode_payload :
    (f : Frame) (fs : List Frame) (bytes : List ℕ)
    → IsWellFormedPayload (f ∷ fs)
    → encode_payload (f ∷ fs) ≡ ok bytes
    → decode_frames bytes ≡ some (ok (f ∷ fs))
unfolding decode_frames
decode_frames-encode_payload f fs [] h e = absurd (omega (arith, payload_filled f fs h.0 e))
decode_frames-encode_payload f fs (b ∷ bytes) h e =
    decode_loop-payload (f ∷ fs) (length (b ∷ bytes)) [] (b ∷ bytes) h e (omega arith)
