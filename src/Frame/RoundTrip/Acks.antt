-- ===== src/Frame/RoundTrip/Acks.antt =====
-- ACK frames: the list of ranges, the ECN counts, and PADDING.
use flow_q.Prelude.{ℕ, zero, suc, ◌+◌, ◌*◌, ◌/◌, ◌≤◌, ◌<◌, ◌≡◌, refl, ◌∙◌, sym, arith}
use flow_q.Prelude.{Option, none, some, List, [], ◌∷◌, ◌++◌, length, replicate, ltb, ◌==◌}
use flow_q.Prelude.{All, ok, or_fail-eq-ok, bind-eq-ok, ok-injective, false}
use flow_q.Prelude.{length-append}
use flow_q.Varint.Bytes.{varint_bytes}
use flow_q.Varint.RoundTrip.{length-varint_bytes}
use flow_q.Frame.{AckFrame, AckRange, AckEcnCounts, ack, padding}
use flow_q.Frame.Cursor.{Encodable, append_varints-eq-some, read_varint_at-bytes}
use flow_q.Frame.Encode.{encode_ack, encode_ack_ranges, encode_ecn_counts, ack_type}
use flow_q.Frame.Decode.{
  decode_frame, decode_body, decode_ack, decode_ack_ranges, decode_ecn_counts, decode_padding,
}
use flow_q.Frame.WellFormed.{NotZeroFirst}
use flow_q.Frame.RoundTrip.Header.{decode_frame-type}
use mathlib.Core.List.{append_assoc, append-nil}

abbrev range_bytes : List AckRange → List ℕ
range_bytes [] = []
range_bytes (r ∷ rs) = varint_bytes r.gap ++ (varint_bytes r.length ++ range_bytes rs)

abbrev IsEncodableRange : AckRange → Type 0
IsEncodableRange r = Encodable r.gap × Encodable r.length

encode_ack_ranges-eq-ok :
    (output : List ℕ) (rs : List AckRange) {bytes : List ℕ}
    → encode_ack_ranges output rs ≡ ok bytes
    → All IsEncodableRange rs × (bytes ≡ output ++ range_bytes rs)
unfolding encode_ack_ranges
encode_ack_ranges-eq-ok output [] e = (tt, sym (ok-injective e) ∙ sym (append-nil output))
encode_ack_ranges-eq-ok output (r ∷ rs) {bytes} e =
    let (more, e₁, e₂) = bind-eq-ok _ _ e in
    let (all, w) = append_varints-eq-some output _ (or_fail-eq-ok _ _ e₁) in
    let (rest, w') = encode_ack_ranges-eq-ok more rs {bytes = bytes} e₂ in
    (((all.0, all.1.0), rest), rw (w', w) (simp (append_assoc, append-nil)))

decode_ack_ranges-bytes :
    (rs : List AckRange) (rest : List ℕ)
    → All IsEncodableRange rs
    → decode_ack_ranges (length rs) (range_bytes rs ++ rest) ≡ ok (rs, rest)
unfolding decode_ack_ranges
decode_ack_ranges-bytes [] rest h = refl
decode_ack_ranges-bytes (r ∷ rs) rest h = simp (
  append_assoc,
  read_varint_at-bytes r.gap h.0.0,
  read_varint_at-bytes r.length h.0.1,
  decode_ack_ranges-bytes rs rest h.1,
)

varint_bytes_filled : (v : ℕ) → 1 ≤ length (varint_bytes v)
varint_bytes_filled v = ground (arith, length-varint_bytes v)

-- A range takes two bytes at least, so the guard on the count lets every encoding pass.
length-range_bytes : (rs : List AckRange) → length rs * 2 ≤ length (range_bytes rs)
length-range_bytes [] = omega arith
length-range_bytes (r ∷ rs) = omega (
  arith,
  varint_bytes_filled r.gap,
  varint_bytes_filled r.length,
  length-append (varint_bytes r.gap) (varint_bytes r.length ++ range_bytes rs),
  length-append (varint_bytes r.length) (range_bytes rs),
  length-range_bytes rs,
)

ecn_bytes : Option AckEcnCounts → List ℕ
ecn_bytes none = []
ecn_bytes (some c) = varint_bytes c.ect0 ++ (varint_bytes c.ect1 ++ varint_bytes c.ce)

ecn_round :
    (type : ℕ) (output : List ℕ) (counts : Option AckEcnCounts) (rest : List ℕ) {bytes : List ℕ}
    → encode_ecn_counts output counts ≡ ok bytes
    → (bytes ≡ output ++ ecn_bytes counts)
      × (decode_ecn_counts (ack_type counts == 0x03) (ecn_bytes counts ++ rest) ≡ ok (counts, rest))
unfolding encode_ecn_counts decode_ecn_counts ecn_bytes
ecn_round type output none rest e = (sym (ok-injective e) ∙ sym (append-nil output), refl)
ecn_round type output (some c) rest e =
    let (all, w) = append_varints-eq-some output _ (or_fail-eq-ok _ _ e) in
    let rd = read_varint_at-bytes in
    (
      rw w (simp append-nil),
      simp (append_assoc, rd c.ect0 all.0, rd c.ect1 all.1.0, rd c.ce all.1.1.0),
    )

decode_body-ack :
    (counts : Option AckEcnCounts) (input : List ℕ)
    → decode_body (ack_type counts) input ≡ decode_ack (ack_type counts) input
unfolding decode_body
decode_body-ack none input = refl
decode_body-ack (some c) input = refl

pub ack_round :
    (f : AckFrame) (rest : List ℕ) {bytes : List ℕ}
    → encode_ack f ≡ ok bytes
    → decode_frame (bytes ++ rest) ≡ ok (ack f, rest)
unfolding encode_ack decode_ack
ack_round f rest e =
    let (output, e₁, e₂) = bind-eq-ok _ _ e in
    let (output', e₃, e₄) = bind-eq-ok _ _ e₂ in
    let (all, w) = append_varints-eq-some [] _ (or_fail-eq-ok _ _ e₁) in
    let (ranges, w') = encode_ack_ranges-eq-ok output f.ranges e₃ in
    let (w'', counts) = ecn_round 0 output' f.ecn_counts rest e₄ in
    let rd = read_varint_at-bytes in
    let tail = ecn_bytes f.ecn_counts ++ rest in
    let fits : ltb (length (range_bytes f.ranges ++ tail) / 2) (length f.ranges) ≡ false =
      ground (arith, length-append (range_bytes f.ranges) tail, length-range_bytes f.ranges) in
    rw (w'', w', w)
      (simp (
        append_assoc,
        decode_frame-type (ack_type f.ecn_counts) all.0,
        decode_body-ack f.ecn_counts,
        rd f.largest_acknowledged all.1.0,
        rd f.ack_delay all.1.1.0,
        rd (length f.ranges) all.1.1.1.0,
        rd f.first_ack_range all.1.1.1.1.0,
        fits,
        decode_ack_ranges-bytes f.ranges tail ranges,
        counts,
      ))

pub decode_padding-zeros :
    (count n : ℕ) (rest : List ℕ)
    → NotZeroFirst rest
    → decode_padding count (replicate n 0 ++ rest) ≡ (padding (count + n), rest)
unfolding decode_padding
decode_padding-zeros count zero [] h = ground arith
decode_padding-zeros count zero (zero ∷ rest) h = absurd (omega arith)
decode_padding-zeros count zero (suc b ∷ rest) h = ground arith
decode_padding-zeros count (suc n) rest h =
    rw (decode_padding-zeros (suc count) n rest h) (ground arith)

pub padding_round :
    (count : ℕ) (rest : List ℕ)
    → 0 < count
    → NotZeroFirst rest
    → decode_frame (replicate count 0 ++ rest) ≡ ok (padding count, rest)
unfolding decode_body varint_bytes
padding_round zero rest h nz = absurd (omega arith)
padding_round (suc n) rest h nz =
    decode_frame-type 0x00 (omega arith) (replicate n 0 ++ rest)
    ∙ rw (decode_padding-zeros 1 n rest nz) (ground arith)
