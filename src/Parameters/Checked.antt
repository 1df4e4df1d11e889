-- ===== src/Parameters/Checked.antt =====
-- `decode_transport_parameters` on any input: it ends, and what it returns is within the ranges.
use flow_q.Prelude.{
  ℕ, zero, suc, ◌≤◌, ◌<◌, ◌≡◌, subst, refl, arith, Bool, false, Option, none, some, if_cases,
}
use flow_q.Prelude.{List, [], ◌∷◌, length, length-drop, take, drop, ltb, ◌==◌, if◌then◌else◌}
use flow_q.Prelude.{Error, Result, ok, err, ◌>>=◌, String}
use flow_q.Varint.{decode_varint}
use flow_q.Parameters.{
  TransportParameters, no_parameters, already_seen, validate_connection_id_transport_parameter,
  unless_error,
}
use flow_q.Parameters.Decode.{
  Round, assign_numeric_parameter, assign_parameter, decode_value, decode_round, decode_parameters,
  decode_transport_parameters,
}

abbrev pub Holds {ℓ} : {A : Type ℓ} → (A → Type 0) → Option A → Type 0
Holds P none = Unit {0}
Holds P (some a) = P a

-- The ranges of RFC 9000 that the decoder checks.
abbrev pub IsChecked : TransportParameters → Type 0
IsChecked p =
    Holds (λ (id : List ℕ). length id ≤ 20) p.original_destination_connection_id
    × Holds (λ (n : ℕ). 1200 ≤ n) p.max_udp_payload_size
    × Holds (λ (n : ℕ). n ≤ 20) p.ack_delay_exponent
    × Holds (λ (n : ℕ). n < 16384) p.max_ack_delay
    × Holds (λ (n : ℕ). 2 ≤ n) p.active_connection_id_limit
    × Holds (λ (id : List ℕ). length id ≤ 20) p.initial_source_connection_id
    × Holds (λ (id : List ℕ). length id ≤ 20) p.retry_source_connection_id

abbrev pub Succeeds {ℓ} : {A : Type ℓ} → (A → Type 0) → Result A → Type 0
Succeeds P (err e) = Unit {0}
Succeeds P (ok a) = P a

module _ {ℓ κ} {A : Type ℓ} {B : Type κ} (P : B → Type 0) where
  bind-Succeeds :
      (m : Result A) (next : A → Result B)
      → ((a : A) → m ≡ ok a → Succeeds P (next a))
      → Succeeds P (m >>= next)
  bind-Succeeds (err e) next h = tt
  bind-Succeeds (ok a) next h = h a refl

assigned :
    (value : List ℕ) (message : String) (next : ℕ → Result TransportParameters)
    → ((n : ℕ) → Succeeds IsChecked (next n))
    → Succeeds IsChecked (assign_numeric_parameter value message >>= next)
assigned value message next h =
    bind-Succeeds IsChecked (assign_numeric_parameter value message) next (λ n e. h n)

short_id :
    (value : List ℕ) (message : String) (r : TransportParameters)
    → (length value ≤ 20 → IsChecked r)
    → Succeeds IsChecked
        (unless_error (validate_connection_id_transport_parameter value message) (ok r))
unfolding validate_connection_id_transport_parameter
short_id value message r h =
    if_cases (λ (check : Option Error). Succeeds IsChecked (unless_error check (ok r)))
      (ltb 20 (length value)) (λ long. tt) (λ short. h (ground (arith, short)))

-- A test that fails, in front of a result.
ranged :
    (test : Bool) (error : Error) (r : TransportParameters)
    → (test ≡ false → IsChecked r)
    → Succeeds IsChecked (if test then err error else ok r)
ranged test error r h = if_cases (Succeeds IsChecked) test (λ outside. tt) h

assign_parameter-IsChecked :
    (r : TransportParameters) (id : ℕ) (value : List ℕ)
    → IsChecked r
    → Succeeds IsChecked (assign_parameter r id value)
unfolding assign_parameter
assign_parameter-IsChecked r id value (original, payload, exponent, delay, limit, initial, retry) =
    let fine : IsChecked r = (original, payload, exponent, delay, limit, initial, retry) in
    let P = Succeeds IsChecked in
    if_cases P (id == 0x00)
      (λ t. short_id value _ _ (λ short. (short, payload, exponent, delay, limit, initial, retry)))
      (λ f.
        if_cases P (id == 0x01) (λ t. assigned value _ _ (λ n. fine))
          (λ f.
            if_cases P (id == 0x03)
              (λ t. assigned value _ _ (λ n. ranged _ _ _ (λ inside.
                (original, ground (arith, inside), exponent, delay, limit, initial, retry))))
              (λ f.
                if_cases P (id == 0x04) (λ t. assigned value _ _ (λ n. fine))
                  (λ f.
                    if_cases P (id == 0x05) (λ t. assigned value _ _ (λ n. fine))
                      (λ f.
                        if_cases P (id == 0x06) (λ t. assigned value _ _ (λ n. fine))
                          (λ f.
                            if_cases P (id == 0x07) (λ t. assigned value _ _ (λ n. fine))
                              (λ f.
                                if_cases P (id == 0x08) (λ t. assigned value _ _ (λ n. fine))
                                  (λ f.
                                    if_cases P (id == 0x09) (λ t. assigned value _ _ (λ n. fine))
                                      (λ f.
                                        if_cases P (id == 0x0a)
                                          (λ t. assigned value _ _ (λ n. ranged _ _ _ (λ inside. (
                                            original,
                                            payload,
                                            ground (arith, inside),
                                            delay,
                                            limit,
                                            initial,
                                            retry,
                                          ))))
                                          (λ f.
                                            if_cases P (id == 0x0b)
                                              (λ t. assigned value _ _ (λ n. ranged _ _ _ (λ inside.
                                                (
                                                  original,
                                                  payload,
                                                  exponent,
                                                  ground (arith, inside),
                                                  limit,
                                                  initial,
                                                  retry,
                                                ))))
                                              (λ f.
                                                if_cases P (id == 0x0c)
                                                  (λ t. ranged _ _ _ (λ empty. fine))
                                                  (λ f.
                                                    if_cases P (id == 0x0e)
                                                      (λ t. assigned value _ _ (λ n.
                                                        ranged _ _ _ (λ inside. (
                                                          original,
                                                          payload,
                                                          exponent,
                                                          delay,
                                                          ground (arith, inside),
                                                          initial,
                                                          retry,
                                                        ))))
                                                      (λ f.
                                                        if_cases P (id == 0x0f)
                                                          (λ t. short_id value _ _ (λ short. (
                                                            original, payload, exponent, delay,
                                                            limit, short, retry,
                                                          )))
                                                          (λ f.
                                                            if_cases P (id == 0x10)
                                                            (λ t. short_id value _ _ (λ short. (
                                                            original, payload, exponent, delay,
                                                            limit, initial, short,
                                                            )))
                                                            (λ f. fine)))))))))))))))

-- An integer takes a byte at least.
decode_varint-takes : (input : List ℕ) → Succeeds (λ (d : ℕ × ℕ). 1 ≤ d.1) (decode_varint input)
unfolding decode_varint
decode_varint-takes [] = tt
decode_varint-takes (first ∷ rest) = ground arith

-- A round keeps the ranges and leaves less of the input.
abbrev Advances : List ℕ → Round → Type 0
Advances input (r, seen, rest) = IsChecked r × (length rest < length input)

decode_value-Advances :
    (r : TransportParameters) (seen : List ℕ) (id size : ℕ) (input left : List ℕ)
    → IsChecked r
    → length left < length input
    → Succeeds (Advances input) (decode_value r seen id size left)
unfolding decode_value
decode_value-Advances r seen id size input left fine less =
    let P = Succeeds (Advances input) in
    if_cases P (ltb (length left) size) (λ t. tt)
      (λ f.
        if_cases P (already_seen seen id) (λ t. tt)
          (λ f. bind-Succeeds (Advances input) (assign_parameter r id (take size left)) _ (λ r' e. (
            subst (Succeeds IsChecked) e (assign_parameter-IsChecked r id (take size left) fine),
            omega (arith, length-drop size left, less),
          ))))

decode_round-Advances :
    (r : TransportParameters) (seen input : List ℕ)
    → IsChecked r
    → 0 < length input
    → Succeeds (Advances input) (decode_round r seen input)
unfolding decode_round
decode_round-Advances r seen input fine filled =
    bind-Succeeds (Advances input) (decode_varint input) _ (λ (id, n) e.
      let taken = subst (Succeeds (λ (d : ℕ × ℕ). 1 ≤ d.1)) e (decode_varint-takes input) in
      bind-Succeeds (Advances input) (decode_varint (drop n input)) _ (λ (size, m) e'.
        decode_value-Advances r seen id size input (drop m (drop n input)) fine
          (omega (arith, length-drop m (drop n input), length-drop n input, taken, filled))))

-- The loop comes to a result, and one within the ranges.
abbrev pub IsOutcome : Option (Result TransportParameters) → Type 0
IsOutcome outcome =
    (result : Result TransportParameters) × (outcome ≡ some result) × Succeeds IsChecked result

after-IsOutcome :
    (n : ℕ) (b : ℕ) (input : List ℕ) (round : Result Round)
    → length (b ∷ input) ≤ suc n
    → Succeeds (Advances (b ∷ input)) round
    → ((r : TransportParameters) (seen rest : List ℕ)
        → length rest ≤ n
        → IsChecked r
        → IsOutcome (decode_parameters n r seen rest))
    → IsOutcome
        (elim round [ err e ↦ some (err e) | ok (r, seen, rest) ↦ decode_parameters n r seen rest ])
after-IsOutcome n b input (err e) h advances more = (err e, refl, tt)
after-IsOutcome n b input (ok (r, seen, rest)) h (fine, less) more =
    more r seen rest (omega (arith, h, less)) fine

decode_parameters-IsOutcome :
    (n : ℕ) (r : TransportParameters) (seen input : List ℕ)
    → length input ≤ n
    → IsChecked r
    → IsOutcome (decode_parameters n r seen input)
unfolding decode_parameters
decode_parameters-IsOutcome zero r seen [] h fine = (ok r, refl, fine)
decode_parameters-IsOutcome zero r seen (b ∷ input) h fine = absurd (omega (arith, h))
decode_parameters-IsOutcome (suc n) r seen [] h fine = (ok r, refl, fine)
decode_parameters-IsOutcome (suc n) r seen (b ∷ input) h fine =
    after-IsOutcome n b input (decode_round r seen (b ∷ input)) h
      (decode_round-Advances r seen (b ∷ input) fine (omega arith)) (decode_parameters-IsOutcome n)

-- On any input `decode_transport_parameters` comes to an error or to parameters, and of these the
-- connection IDs have at most 20 bytes and the four checked numbers are in their ranges.
pub decode_transport_parameters_total :
    (input : List ℕ) → IsOutcome (decode_transport_parameters input)
unfolding decode_transport_parameters
decode_transport_parameters_total input =
    decode_parameters-IsOutcome (length input) no_parameters [] input (omega arith)
      (tt, tt, tt, tt, tt, tt, tt)
