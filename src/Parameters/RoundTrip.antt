-- ===== src/Parameters/RoundTrip.antt =====
-- What `encode_transport_parameters` writes is read back.
use flow_q.Prelude.{
  zero, suc, ℕ, ◌≤◌, ◌≡◌, ◌∙◌, ap, sym, subst, refl, arith, false, Option, none, some, String,
}
use flow_q.Prelude.{List, [], ◌∷◌, ◌++◌, length, ltb, leb, if-false}
use flow_q.Prelude.{Error, Result, ok, err, ok-injective, bind-eq-ok, ◌>>=◌}
use flow_q.Varint.{max_varint}
use flow_q.Varint.Bytes.{varint_bytes}
use flow_q.Parameters.{
  TransportParameters, no_parameters, validate_transport_parameter_for_encode,
  validate_connection_id_transport_parameter, unless_error,
}
use flow_q.Parameters.Encode.{
  Written, append_connection_id_transport_parameter, append_checked_numeric_transport_parameter,
  append_disable_active_migration, append_unknowns, encode_transport_parameters,
}
use flow_q.Parameters.Decode.{
  Round, decode_round, assign_numeric_parameter, assign_parameter, decode_parameters,
  decode_transport_parameters,
}
use flow_q.Parameters.Chunks.{assign_numeric_parameter-bytes}
use flow_q.Parameters.Steps.{
  Decodes, Reads, then-Reads, connection_id-Reads, numeric-Reads, flag-Reads, unknowns-Reads,
}
use mathlib.Core.List.{append-nil}

-- An assignment of a number in its range.
assign-bytes :
    (value : ℕ) (message : String) (next : ℕ → Result TransportParameters) {r : TransportParameters}
    → value ≤ max_varint
    → next value ≡ ok r
    → (assign_numeric_parameter (varint_bytes value) message >>= next) ≡ ok r
assign-bytes value message next small e =
    ap (λ (m : Result ℕ). m >>= next) (assign_numeric_parameter-bytes value message small) ∙ e

-- The four ranges that the encoder checks.
module _ (value : ℕ) (small : value ≤ max_varint) where
  payload_size : validate_transport_parameter_for_encode 0x03 value ≡ none → ltb value 1200 ≡ false
  unfolding validate_transport_parameter_for_encode
  payload_size h = ground (arith, h, small)

  id_limit : validate_transport_parameter_for_encode 0x0e value ≡ none → ltb value 2 ≡ false
  unfolding validate_transport_parameter_for_encode
  id_limit h = ground (arith, h, small)

  exponent : validate_transport_parameter_for_encode 0x0a value ≡ none → ltb 20 value ≡ false
  unfolding validate_transport_parameter_for_encode
  exponent h = ground (arith, h, small)

  ack_delay : validate_transport_parameter_for_encode 0x0b value ≡ none → leb 16384 value ≡ false
  unfolding validate_transport_parameter_for_encode
  ack_delay h = ground (arith, h, small)

passed {ℓ} :
    {A : Type ℓ} {check : Option Error} {r : A} → check ≡ none → unless_error check (ok r) ≡ ok r
passed {A} {check} {r} fine = ap (λ (c : Option Error). unless_error c (ok r)) fine

encode-Reads :
    (p : TransportParameters) (w : Written)
    → (append_connection_id_transport_parameter 0x00
          "original_destination_connection_id transport parameter must be at most 20 bytes"
          p.original_destination_connection_id
          ([], [])
        >>= append_checked_numeric_transport_parameter 0x01 p.max_idle_timeout
        >>= append_checked_numeric_transport_parameter 0x03 p.max_udp_payload_size
        >>= append_checked_numeric_transport_parameter 0x04 p.initial_max_data
        >>= append_checked_numeric_transport_parameter 0x05 p.initial_max_stream_data_bidi_local
        >>= append_checked_numeric_transport_parameter 0x06 p.initial_max_stream_data_bidi_remote
        >>= append_checked_numeric_transport_parameter 0x07 p.initial_max_stream_data_uni
        >>= append_checked_numeric_transport_parameter 0x08 p.initial_max_streams_bidi
        >>= append_checked_numeric_transport_parameter 0x09 p.initial_max_streams_uni
        >>= append_checked_numeric_transport_parameter 0x0a p.ack_delay_exponent
        >>= append_checked_numeric_transport_parameter 0x0b p.max_ack_delay
        >>= append_disable_active_migration p.disable_active_migration
        >>= append_checked_numeric_transport_parameter 0x0e p.active_connection_id_limit
        >>= append_connection_id_transport_parameter 0x0f
            "initial_source_connection_id transport parameter must be at most 20 bytes"
            p.initial_source_connection_id
        >>= append_connection_id_transport_parameter 0x10
            "retry_source_connection_id transport parameter must be at most 20 bytes"
            p.retry_source_connection_id
        >>= append_unknowns p.unknown)
      ≡ ok w
    → Reads no_parameters ([], []) p w
unfolding assign_parameter validate_connection_id_transport_parameter
encode-Reads p =
    let r1 : TransportParameters = record no_parameters {
      original_destination_connection_id = p.original_destination_connection_id;
    } in
    let r2 : TransportParameters = record r1 { max_idle_timeout = p.max_idle_timeout } in
    let r3 : TransportParameters = record r2 { max_udp_payload_size = p.max_udp_payload_size } in
    let r4 : TransportParameters = record r3 { initial_max_data = p.initial_max_data } in
    let r5 : TransportParameters = record r4 {
      initial_max_stream_data_bidi_local = p.initial_max_stream_data_bidi_local;
    } in
    let r6 : TransportParameters = record r5 {
      initial_max_stream_data_bidi_remote = p.initial_max_stream_data_bidi_remote;
    } in
    let r7 : TransportParameters = record r6 {
      initial_max_stream_data_uni = p.initial_max_stream_data_uni;
    } in
    let r8 : TransportParameters = record r7 {
      initial_max_streams_bidi = p.initial_max_streams_bidi;
    } in
    let r9 : TransportParameters = record r8 {
      initial_max_streams_uni = p.initial_max_streams_uni;
    } in
    let r10 : TransportParameters = record r9 { ack_delay_exponent = p.ack_delay_exponent } in
    let r11 : TransportParameters = record r10 { max_ack_delay = p.max_ack_delay } in
    let r12 : TransportParameters = record r11 {
      disable_active_migration = p.disable_active_migration;
    } in
    let r13 : TransportParameters = record r12 {
      active_connection_id_limit = p.active_connection_id_limit;
    } in
    let r14 : TransportParameters = record r13 {
      initial_source_connection_id = p.initial_source_connection_id;
    } in
    let r15 : TransportParameters = record r14 {
      retry_source_connection_id = p.retry_source_connection_id;
    } in
    then-Reads _ _
      (then-Reads _ _
        (then-Reads _ _
          (then-Reads _ _
            (then-Reads _ _
              (then-Reads _ _
                (then-Reads _ _
                  (then-Reads _ _
                    (then-Reads _ _
                      (then-Reads _ _
                        (then-Reads _ _
                          (then-Reads _ _
                            (then-Reads _ _
                              (then-Reads _ _
                                (then-Reads _ _
                                  (λ w.
                                    connection_id-Reads
                                      (λ v. record no_parameters {
                                        original_destination_connection_id = v;
                                      })
                                      0x00 _ p.original_destination_connection_id
                                      (λ value fine. passed fine) ([], []) w)
                                  (numeric-Reads (λ v. record r1 { max_idle_timeout = v }) 0x01
                                    p.max_idle_timeout
                                    (λ value fine small. assign-bytes value _ _ small refl)))
                                (numeric-Reads (λ v. record r2 { max_udp_payload_size = v }) 0x03
                                  p.max_udp_payload_size
                                  (λ value fine small.
                                    assign-bytes value _ _ small
                                      (if-false _ (payload_size value small fine)))))
                              (numeric-Reads (λ v. record r3 { initial_max_data = v }) 0x04
                                p.initial_max_data
                                (λ value fine small. assign-bytes value _ _ small refl)))
                            (numeric-Reads
                              (λ v. record r4 { initial_max_stream_data_bidi_local = v }) 0x05
                              p.initial_max_stream_data_bidi_local
                              (λ value fine small. assign-bytes value _ _ small refl)))
                          (numeric-Reads
                            (λ v. record r5 { initial_max_stream_data_bidi_remote = v }) 0x06
                            p.initial_max_stream_data_bidi_remote
                            (λ value fine small. assign-bytes value _ _ small refl)))
                        (numeric-Reads (λ v. record r6 { initial_max_stream_data_uni = v }) 0x07
                          p.initial_max_stream_data_uni
                          (λ value fine small. assign-bytes value _ _ small refl)))
                      (numeric-Reads (λ v. record r7 { initial_max_streams_bidi = v }) 0x08
                        p.initial_max_streams_bidi
                        (λ value fine small. assign-bytes value _ _ small refl)))
                    (numeric-Reads (λ v. record r8 { initial_max_streams_uni = v }) 0x09
                      p.initial_max_streams_uni
                      (λ value fine small. assign-bytes value _ _ small refl)))
                  (numeric-Reads (λ v. record r9 { ack_delay_exponent = v }) 0x0a
                    p.ack_delay_exponent
                    (λ value fine small.
                      assign-bytes value _ _ small (if-false _ (exponent value small fine)))))
                (numeric-Reads (λ v. record r10 { max_ack_delay = v }) 0x0b p.max_ack_delay
                  (λ value fine small.
                    assign-bytes value _ _ small (if-false _ (ack_delay value small fine)))))
              (flag-Reads (λ v. record r11 { disable_active_migration = v })
                p.disable_active_migration refl))
            (numeric-Reads (λ v. record r12 { active_connection_id_limit = v }) 0x0e
              p.active_connection_id_limit
              (λ value fine small.
                assign-bytes value _ _ small (if-false _ (id_limit value small fine)))))
          (connection_id-Reads (λ v. record r13 { initial_source_connection_id = v }) 0x0f _
            p.initial_source_connection_id (λ value fine. passed fine)))
        (connection_id-Reads (λ v. record r14 { retry_source_connection_id = v }) 0x10 _
          p.retry_source_connection_id (λ value fine. passed fine)))
      (unknowns-Reads r15 p.unknown)

abbrev after : ℕ → Result Round → Option (Result TransportParameters)
after n (err x) = some (err x)
after n (ok (r, seen, rest)) = decode_parameters n r seen rest

after-more :
    (n m : ℕ) (round : Result Round) {result : Result TransportParameters}
    → ((r : TransportParameters) (seen rest : List ℕ)
        → decode_parameters n r seen rest ≡ some result
        → decode_parameters m r seen rest ≡ some result)
    → after n round ≡ some result
    → after m round ≡ some result
after-more n m (err x) more e = e
after-more n m (ok (r, seen, rest)) more e = more r seen rest e

decode_parameters-more :
    (n m : ℕ) (r : TransportParameters) (seen input : List ℕ) {result : Result TransportParameters}
    → n ≤ m
    → decode_parameters n r seen input ≡ some result
    → decode_parameters m r seen input ≡ some result
unfolding decode_parameters
decode_parameters-more zero zero r seen input h e = e
decode_parameters-more zero (suc m) r seen [] h e = e
decode_parameters-more zero (suc m) r seen (b ∷ input) h e = absurd (cc e)
decode_parameters-more (suc n) zero r seen input h e = absurd (omega (arith, h))
decode_parameters-more (suc n) (suc m) r seen [] h e = e
decode_parameters-more (suc n) (suc m) r seen (b ∷ input) {result} h e =
    after-more n m (decode_round r seen (b ∷ input))
      (λ r' seen' rest. decode_parameters-more n m r' seen' rest (omega (arith, h))) e

-- Transport parameters that encode decode to themselves, the unknown ones in their order.
pub decode_transport_parameters-encode :
    (p : TransportParameters) (bytes : List ℕ)
    → encode_transport_parameters p ≡ ok bytes
    → decode_transport_parameters bytes ≡ some (ok p)
unfolding encode_transport_parameters decode_transport_parameters decode_parameters
decode_transport_parameters-encode p bytes e =
    let (w, e₁, e₂) = bind-eq-ok _ _ e in
    let reads = encode-Reads p w e₁ in
    let all : reads.appended ++ [] ≡ bytes =
      append-nil reads.appended ∙ sym reads.written ∙ ok-injective e₂ in
    let (n, enough, d) =
      subst (λ input. Decodes no_parameters [] input p) all
        (reads.back [] p (0, omega arith, refl)) in
    decode_parameters-more n (length bytes) no_parameters [] bytes enough d
