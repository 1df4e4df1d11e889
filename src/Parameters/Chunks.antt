-- ===== src/Parameters/Chunks.antt =====
-- One parameter on the wire: its identifier, its length and its value, written and read back.
use flow_q.Prelude.{ℕ, zero, suc, ◌≤◌, ◌≡◌, ◌∙◌, ap, sym, subst, refl, arith, false, String}
use flow_q.Prelude.{
  List, [], ◌∷◌, ◌++◌, length, drop, replicate, length-append, take-length-append,
  drop-length-append, ltb,
}
use flow_q.Prelude.{Result, ok, ok-injective, bind-eq-ok, if-err-eq-ok, if-false, ◌>>=◌}
use flow_q.Varint.{max_varint, encoded_size, encode_varint, decode_varint}
use flow_q.Varint.Bytes.{varint_bytes, varint_length}
use flow_q.Varint.RoundTrip.{
  length-varint_bytes, decode_varint-bytes, encoded_size_agrees, encode_varint-eq-ok,
}
use flow_q.Parameters.{TransportParameters, already_seen, remember_transport_parameter}
use flow_q.Parameters.Encode.{
  append_transport_varint, append_transport_parameter, encode_transport_varint_value,
}
use flow_q.Parameters.Decode.{
  decode_parameter_varint, assign_numeric_parameter, assign_parameter, Round, decode_value,
  decode_round,
}
use mathlib.Core.List.{append_assoc, append-nil}

drop-replicate : (n : ℕ) → drop {A = ℕ} n (replicate n 0) ≡ []
drop-replicate zero = refl
drop-replicate (suc n) = drop-replicate n

append_transport_varint-eq-ok :
    (output : List ℕ) (value : ℕ) {more : List ℕ}
    → append_transport_varint output value ≡ ok more
    → (value ≤ max_varint) × (more ≡ output ++ varint_bytes value)
unfolding append_transport_varint
append_transport_varint-eq-ok output value {more} e =
    let (size, e₁, e₂) = bind-eq-ok (encoded_size value) _ e in
    let ((n, encoded), e₃, e₄) = bind-eq-ok (encode_varint value (replicate size 0)) _ e₂ in
    let (small, length_is, fits, written) = encode_varint-eq-ok value (replicate size 0) e₃ in
    let size_is : size ≡ n =
      ok-injective (sym e₁ ∙ (encoded_size_agrees value).0 small) ∙ sym length_is in
    let rest : drop {A = ℕ} n (replicate size 0) ≡ [] =
      subst (λ k. drop {A = ℕ} n (replicate k 0) ≡ []) (sym size_is) (drop-replicate n) in
    (
      small,
      sym (ok-injective e₄)
          ∙ ap (◌++◌ output)
              (written ∙ ap (◌++◌ (varint_bytes value)) rest ∙ append-nil (varint_bytes value)),
    )

abbrev pub chunk : ℕ → List ℕ → List ℕ
chunk id value = varint_bytes id ++ (varint_bytes (length value) ++ value)

pub append_transport_parameter-eq-ok :
    (output : List ℕ) (id : ℕ) (value : List ℕ) {more : List ℕ}
    → append_transport_parameter output id value ≡ ok more
    → (id ≤ max_varint) × (length value ≤ max_varint) × (more ≡ output ++ chunk id value)
unfolding append_transport_parameter
append_transport_parameter-eq-ok output id value {more} e =
    let (output₂, e₁, e₂) = bind-eq-ok _ _ e in
    let (output₁, e₃, e₄) = bind-eq-ok _ _ e₁ in
    let (id_small, id_written) = append_transport_varint-eq-ok output id e₃ in
    let (size_small, size_written) = append_transport_varint-eq-ok output₁ (length value) e₄ in
    (
      id_small,
      size_small,
      sym (ok-injective e₂)
          ∙ ap (λ (o : List ℕ). o ++ value)
              (size_written ∙ ap (λ (o : List ℕ). o ++ varint_bytes (length value)) id_written)
          ∙ append_assoc (output ++ varint_bytes id) (varint_bytes (length value)) value
          ∙ append_assoc output (varint_bytes id) (varint_bytes (length value) ++ value),
    )

pub encode_transport_varint_value-eq-ok :
    (value : ℕ) {bytes : List ℕ}
    → encode_transport_varint_value value ≡ ok bytes
    → (value ≤ max_varint) × (bytes ≡ varint_bytes value)
unfolding encode_transport_varint_value
encode_transport_varint_value-eq-ok value e = append_transport_varint-eq-ok [] value e

pub remember-eq-ok :
    (emitted : List ℕ) (id : ℕ) {more : List ℕ}
    → remember_transport_parameter emitted id ≡ ok more
    → (already_seen emitted id ≡ false) × (more ≡ emitted ++ (id ∷ []))
unfolding remember_transport_parameter
remember-eq-ok emitted id e =
    let (small, e₁) = if-err-eq-ok (ltb max_varint id) _ e in
    let (new, e₂) = if-err-eq-ok (already_seen emitted id) _ e₁ in (new, sym (ok-injective e₂))

pub assign_numeric_parameter-bytes :
    (value : ℕ) (message : String)
    → value ≤ max_varint
    → assign_numeric_parameter (varint_bytes value) message ≡ ok value
unfolding assign_numeric_parameter decode_parameter_varint
assign_numeric_parameter-bytes value message small =
    let decoded : decode_varint (varint_bytes value) ≡ ok (value, varint_length value) =
      ap decode_varint (sym (append-nil (varint_bytes value)))
      ∙ decode_varint-bytes value [] small in
    rw (decoded, assign_numeric_parameter, decode_parameter_varint)
      (ground (arith, length-varint_bytes value))

drop-varint_bytes :
    (value : ℕ) (rest : List ℕ) → drop (varint_length value) (varint_bytes value ++ rest) ≡ rest
drop-varint_bytes value rest =
    ap (λ n. drop n (varint_bytes value ++ rest)) (sym (length-varint_bytes value))
    ∙ drop-length-append (varint_bytes value) rest

decode_value-front :
    (result : TransportParameters) (seen : List ℕ) (id : ℕ) (value rest : List ℕ)
    → already_seen seen id ≡ false
    → decode_value result seen id (length value) (value ++ rest)
      ≡ (assign_parameter result id value >>= λ result'. ok (result', seen ++ (id ∷ []), rest))
unfolding decode_value
decode_value-front result seen id value rest new =
    let fits : ltb (length (value ++ rest)) (length value) ≡ false =
      ground (arith, length-append value rest) in
    if-false _ fits
    ∙ if-false _ new
    ∙ ap
        (λ (v : List ℕ). assign_parameter result id v >>= λ result'.
          ok (result', seen ++ (id ∷ []), drop (length value) (value ++ rest)))
        (take-length-append value rest)
    ∙ ap
        (λ (left : List ℕ).
          assign_parameter result id value >>= λ result'. ok (result', seen ++ (id ∷ []), left))
        (drop-length-append value rest)

-- A new parameter is read as it was written.
pub decode_round-chunk :
    (result : TransportParameters) (seen : List ℕ) (id : ℕ) (value rest : List ℕ)
    → id ≤ max_varint
    → length value ≤ max_varint
    → already_seen seen id ≡ false
    → decode_round result seen (chunk id value ++ rest)
      ≡ (assign_parameter result id value >>= λ result'. ok (result', seen ++ (id ∷ []), rest))
unfolding decode_round
decode_round-chunk result seen id value rest id_small size_small new =
    let behind = varint_bytes (length value) ++ (value ++ rest) in
    let whole : chunk id value ++ rest ≡ varint_bytes id ++ behind =
      append_assoc (varint_bytes id) (varint_bytes (length value) ++ value) rest
      ∙ ap (◌++◌ (varint_bytes id)) (append_assoc (varint_bytes (length value)) value rest) in
    let value_behind : List ℕ → ℕ × ℕ → Result Round =
      λ left d. decode_value result seen id d.0 (drop d.1 left) in
    let id_behind : List ℕ → ℕ × ℕ → Result Round = λ input d.
      decode_varint (drop d.1 input) >>= λ (size, size_size).
      decode_value result seen d.0 size (drop size_size (drop d.1 input)) in
    ap (decode_round result seen) whole
    ∙ ap (λ d. d >>= id_behind (varint_bytes id ++ behind)) (decode_varint-bytes id behind id_small)
    ∙ ap (λ left. decode_varint left >>= value_behind left) (drop-varint_bytes id behind)
    ∙ ap (λ d. d >>= value_behind behind)
        (decode_varint-bytes (length value) (value ++ rest) size_small)
    ∙ ap (decode_value result seen id (length value))
        (drop-varint_bytes (length value) (value ++ rest))
    ∙ decode_value-front result seen id value rest new
