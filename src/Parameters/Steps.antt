-- ===== src/Parameters/Steps.antt =====
-- Each call of the encoder of transport parameters, and the rounds of the decoder that read back what
-- it appended.
use flow_q.Prelude.{
  or-eq-false, ℕ, suc, ◌≤◌, ◌<◌, ◌≡◌, ◌∙◌, ap, sym, subst, refl, arith, Bool, true, false, Option,
  none, some, String,
}
use flow_q.Prelude.{List, [], ◌∷◌, ◌++◌, length, length-append, ◌==◌}
use flow_q.Prelude.{Error, Result, ok, ok-injective, bind-eq-ok, if-err-eq-ok, if-false, ◌>>=◌}
use flow_q.Varint.{max_varint}
use flow_q.Varint.Bytes.{varint_bytes}
use flow_q.Parameters.{
  UnknownTransportParameter, TransportParameters, already_seen, known_transport_parameter_id,
  remember_transport_parameter, validate_transport_parameter_for_encode,
  validate_connection_id_transport_parameter, unless_error,
}
use flow_q.Parameters.Encode.{
  append_transport_parameter, encode_transport_varint_value, append_numeric_transport_parameter,
  Written, append_connection_id_transport_parameter, append_checked_numeric_transport_parameter,
  append_disable_active_migration, append_unknown, append_unknowns,
}
use flow_q.Parameters.Decode.{assign_parameter, decode_round, decode_parameters}
use flow_q.Parameters.Chunks.{
  chunk, append_transport_parameter-eq-ok, encode_transport_varint_value-eq-ok, remember-eq-ok,
  decode_round-chunk,
}
use mathlib.Core.List.{append_assoc, append-nil}

-- The rounds left, the fuel for which the input suffices.
abbrev pub Decodes : TransportParameters → List ℕ → List ℕ → TransportParameters → Type 0
Decodes r seen input result =
    (n : ℕ) × (n ≤ length input) × (decode_parameters n r seen input ≡ some (ok result))

-- The bytes appended, of which the decoder makes `r'` out of `r`.
pub record Reads (r : TransportParameters) (w : Written) (r' : TransportParameters) (w' : Written)
    : Type 0 where
  pub appended : List ℕ
  pub written : w'.0 ≡ w.0 ++ appended
  pub back :
      (rest : List ℕ) (result : TransportParameters)
      → Decodes r' w'.1 rest result
      → Decodes r w.1 (appended ++ rest) result

pub Reads-refl : (r : TransportParameters) (w : Written) → Reads r w r w
Reads-refl r w = record { appended = []; written = sym (append-nil w.0); back = λ rest result d. d }

pub Reads-trans :
    {r : TransportParameters} {w : Written} {r' : TransportParameters} {w' : Written}
    {r'' : TransportParameters} {w'' : Written}
    → Reads r w r' w'
    → Reads r' w' r'' w''
    → Reads r w r'' w''
Reads-trans {r} {w} {r'} {w'} {r''} {w''} one two = record {
  appended = one.appended ++ two.appended;
  written =
      two.written
      ∙ ap (λ (o : List ℕ). o ++ two.appended) one.written
      ∙ append_assoc w.0 one.appended two.appended;
  back = λ rest result d.
      subst (λ input. Decodes r w.1 input result)
        (sym (append_assoc one.appended two.appended rest))
        (one.back (two.appended ++ rest) result (two.back rest result d));
}

-- One call behind others.
pub then-Reads :
    {r s t : TransportParameters} {w₀ : Written} (m : Result Written)
    (next : Written → Result Written)
    → ((w : Written) → m ≡ ok w → Reads r w₀ s w)
    → ((w w' : Written) → next w ≡ ok w' → Reads s w t w')
    → (w' : Written) → (m >>= next) ≡ ok w'
    → Reads r w₀ t w'
then-Reads m next first second w' e =
    let (w, e₁, e₂) = bind-eq-ok m next e in Reads-trans (first w e₁) (second w w' e₂)

varint_filled : (v : ℕ) → 1 ≤ length (varint_bytes v)
unfolding varint_bytes
varint_filled v = ground arith

chunk_filled : (id : ℕ) (value rest : List ℕ) → suc (length rest) ≤ length (chunk id value ++ rest)
chunk_filled id value rest = omega (
  arith,
  length-append (chunk id value) rest,
  length-append (varint_bytes id) (varint_bytes (length value) ++ value),
  varint_filled id,
)

decode_parameters-suc :
    (n : ℕ) (r r' : TransportParameters) (seen seen' input rest : List ℕ)
    → 0 < length input
    → decode_round r seen input ≡ ok (r', seen', rest)
    → decode_parameters (suc n) r seen input ≡ decode_parameters n r' seen' rest
unfolding decode_parameters
decode_parameters-suc n r r' seen seen' [] rest h e = absurd (omega (arith, h))
decode_parameters-suc n r r' seen seen' (b ∷ input) rest h e = rw (e, decode_parameters) refl

-- A parameter appended is assigned.
entry-Reads :
    (r r' : TransportParameters) (output emitted output' : List ℕ) (id : ℕ) (value : List ℕ)
    → assign_parameter r id value ≡ ok r'
    → already_seen emitted id ≡ false
    → append_transport_parameter output id value ≡ ok output'
    → Reads r (output, emitted) r' (output', emitted ++ (id ∷ []))
entry-Reads r r' output emitted output' id value assigned new e =
    let (id_small, size_small, written) = append_transport_parameter-eq-ok output id value e in
    record {
      appended = chunk id value;
      written = written;
      back = λ rest result (n, enough, d).
          let filled = chunk_filled id value rest in
          let round : decode_round r emitted (chunk id value ++ rest)
              ≡ ok (r', emitted ++ (id ∷ []), rest) =
            decode_round-chunk r emitted id value rest id_small size_small new
            ∙ ap
                (λ (m : Result TransportParameters).
                  m >>= λ r₁. ok (r₁, emitted ++ (id ∷ []), rest))
                assigned in
          (
            suc n,
            omega (arith, enough, filled),
            decode_parameters-suc n r r' emitted (emitted ++ (id ∷ [])) (chunk id value ++ rest)
                  rest (omega (arith, filled)) round
                ∙ d,
          );
    }

unless_error-eq-ok {ℓ} :
    {A : Type ℓ} (check : Option Error) (m : Result A) {a : A}
    → unless_error check m ≡ ok a
    → (check ≡ none) × (m ≡ ok a)
unless_error-eq-ok none m e = (refl, e)
unless_error-eq-ok (some x) m e = absurd (cc e)

pub connection_id-Reads :
    (put : Option (List ℕ) → TransportParameters) (id : ℕ) (message : String)
    (field : Option (List ℕ))
    → ((value : List ℕ)
        → validate_connection_id_transport_parameter value message ≡ none
        → assign_parameter (put none) id value ≡ ok (put (some value)))
    → (w w' : Written) → append_connection_id_transport_parameter id message field w ≡ ok w'
    → Reads (put none) w (put field) w'
unfolding append_connection_id_transport_parameter
connection_id-Reads put id message none assigned w w' e =
    subst (Reads (put none) w (put none)) (ok-injective e) (Reads-refl (put none) w)
connection_id-Reads put id message (some value) assigned (output, emitted) w' e =
    let (emitted', e₁, e₂) = bind-eq-ok (remember_transport_parameter emitted id) _ e in
    let (new, next) = remember-eq-ok emitted id e₁ in
    let (fine, e₃) =
      unless_error-eq-ok (validate_connection_id_transport_parameter value message) _ e₂ in
    let (output', e₄, e₅) = bind-eq-ok (append_transport_parameter output id value) _ e₃ in
    subst (Reads (put none) (output, emitted) (put (some value)))
      (ap (λ (seen : List ℕ). (output', seen)) (sym next) ∙ ok-injective e₅)
      (entry-Reads (put none) (put (some value)) output emitted output' id value
        (assigned value fine) new e₄)

pub numeric-Reads :
    (put : Option ℕ → TransportParameters) (id : ℕ) (field : Option ℕ)
    → ((value : ℕ)
        → validate_transport_parameter_for_encode id value ≡ none
        → value ≤ max_varint
        → assign_parameter (put none) id (varint_bytes value) ≡ ok (put (some value)))
    → (w w' : Written) → append_checked_numeric_transport_parameter id field w ≡ ok w'
    → Reads (put none) w (put field) w'
unfolding append_checked_numeric_transport_parameter
numeric-Reads put id none assigned w w' e =
    subst (Reads (put none) w (put none)) (ok-injective e) (Reads-refl (put none) w)
numeric-Reads put id (some value) assigned (output, emitted) w' e =
    let (emitted', e₁, e₂) = bind-eq-ok (remember_transport_parameter emitted id) _ e in
    let (new, next) = remember-eq-ok emitted id e₁ in
    let (fine, e₃) = unless_error-eq-ok (validate_transport_parameter_for_encode id value) _ e₂ in
    let (output', e₄, e₅) =
      bind-eq-ok (append_numeric_transport_parameter output id (some value)) _ e₃ in
    let (bytes, e₆, e₇) = bind-eq-ok (encode_transport_varint_value value) _ e₄ in
    let (small, bytes_are) = encode_transport_varint_value-eq-ok value e₆ in
    subst (Reads (put none) (output, emitted) (put (some value)))
      (ap (λ (seen : List ℕ). (output', seen)) (sym next) ∙ ok-injective e₅)
      (entry-Reads (put none) (put (some value)) output emitted output' id bytes
        (ap (assign_parameter (put none) id) bytes_are ∙ assigned value fine small) new e₇)

pub flag-Reads :
    (put : Bool → TransportParameters) (field : Bool)
    → assign_parameter (put false) 0x0c [] ≡ ok (put true)
    → (w w' : Written) → append_disable_active_migration field w ≡ ok w'
    → Reads (put false) w (put field) w'
unfolding append_disable_active_migration
flag-Reads put false assigned w w' e =
    subst (Reads (put false) w (put false)) (ok-injective e) (Reads-refl (put false) w)
flag-Reads put true assigned (output, emitted) w' e =
    let (emitted', e₁, e₂) = bind-eq-ok (remember_transport_parameter emitted 0x0c) _ e in
    let (new, next) = remember-eq-ok emitted 0x0c e₁ in
    let (output', e₃, e₄) = bind-eq-ok (append_transport_parameter output 0x0c []) _ e₂ in
    subst (Reads (put false) (output, emitted) (put true))
      (ap (λ (seen : List ℕ). (output', seen)) (sym next) ∙ ok-injective e₄)
      (entry-Reads (put false) (put true) output emitted output' 0x0c [] assigned new e₃)

assign_parameter-unknown :
    (r : TransportParameters) (id : ℕ) (value : List ℕ)
    → known_transport_parameter_id id ≡ false
    → assign_parameter r id value
      ≡ ok (record r { unknown = r.unknown ++ (record { id = id; value = value } ∷ []) })
unfolding assign_parameter known_transport_parameter_id
assign_parameter-unknown r id value new =
    let (t14, h14) = or-eq-false _ (id == 0x10) new in
    let (t13, h13) = or-eq-false _ (id == 0x0f) t14 in
    let (t12, h12) = or-eq-false _ (id == 0x0e) t13 in
    let (t11, h11) = or-eq-false _ (id == 0x0c) t12 in
    let (t10, h10) = or-eq-false _ (id == 0x0b) t11 in
    let (t9, h9) = or-eq-false _ (id == 0x0a) t10 in
    let (t8, h8) = or-eq-false _ (id == 0x09) t9 in
    let (t7, h7) = or-eq-false _ (id == 0x08) t8 in
    let (t6, h6) = or-eq-false _ (id == 0x07) t7 in
    let (t5, h5) = or-eq-false _ (id == 0x06) t6 in
    let (t4, h4) = or-eq-false _ (id == 0x05) t5 in
    let (t3, h3) = or-eq-false _ (id == 0x04) t4 in
    let (t2, h2) = or-eq-false _ (id == 0x03) t3 in
    let (t1, h1) = or-eq-false _ (id == 0x01) t2 in
    if-false _ t1
    ∙ if-false _ h1
    ∙ if-false _ h2
    ∙ if-false _ h3
    ∙ if-false _ h4
    ∙ if-false _ h5
    ∙ if-false _ h6
    ∙ if-false _ h7
    ∙ if-false _ h8
    ∙ if-false _ h9
    ∙ if-false _ h10
    ∙ if-false _ h11
    ∙ if-false _ h12
    ∙ if-false _ h13
    ∙ if-false _ h14

unknown-Reads :
    (r : TransportParameters) (unknown : UnknownTransportParameter) (w w' : Written)
    → append_unknown unknown w ≡ ok w'
    → Reads r w (record r { unknown = r.unknown ++ (unknown ∷ []) }) w'
unfolding append_unknown
unknown-Reads r unknown (output, emitted) w' e =
    let (new_id, e₀) = if-err-eq-ok (known_transport_parameter_id unknown.id) _ e in
    let (emitted', e₁, e₂) = bind-eq-ok (remember_transport_parameter emitted unknown.id) _ e₀ in
    let (new, next) = remember-eq-ok emitted unknown.id e₁ in
    let (output', e₃, e₄) =
      bind-eq-ok (append_transport_parameter output unknown.id unknown.value) _ e₂ in
    subst (Reads r (output, emitted) _)
      (ap (λ (seen : List ℕ). (output', seen)) (sym next) ∙ ok-injective e₄)
      (entry-Reads r _ output emitted output' unknown.id unknown.value
        (assign_parameter-unknown r unknown.id unknown.value new_id) new e₃)

pub unknowns-Reads :
    (r : TransportParameters) (unknowns : List UnknownTransportParameter) (w w' : Written)
    → append_unknowns unknowns w ≡ ok w'
    → Reads r w (record r { unknown = r.unknown ++ unknowns }) w'
unfolding append_unknowns
unknowns-Reads r [] w w' e =
    subst (λ (all : List UnknownTransportParameter). Reads r w (record r { unknown = all }) w')
      (sym (append-nil r.unknown)) (subst (Reads r w r) (ok-injective e) (Reads-refl r w))
unknowns-Reads r (unknown ∷ others) w w' e =
    let (w₁, e₁, e₂) = bind-eq-ok (append_unknown unknown w) (append_unknowns others) e in
    subst (λ (all : List UnknownTransportParameter). Reads r w (record r { unknown = all }) w')
      (append_assoc r.unknown (unknown ∷ []) others)
      (Reads-trans (unknown-Reads r unknown w w₁ e₁)
        (unknowns-Reads (record r { unknown = r.unknown ++ (unknown ∷ []) }) others w₁ w' e₂))
