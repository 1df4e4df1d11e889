-- ===== src/Frame/RoundTrip/Fields.antt =====
-- The frames that are a fixed row of integers, and those with one run of bytes at the end.
use flow_q.Prelude.{ℕ, ◌+◌, ◌≡◌, arith, String}
use flow_q.Prelude.{List, [], ◌++◌, length, take, drop}
use flow_q.Prelude.{
  ok, or_fail-eq-ok, bind-eq-ok, ok-injective, if-err-eq-ok, ltb, ◌||◌, not, true, false, Bool,
}
use flow_q.Prelude.{◌==◌, length-append, take-length-append}
use flow_q.Prelude.{drop-length-append}
use flow_q.Frame.{
  Frame, ResetStreamFrame, reset_stream, StopSendingFrame, stop_sending, CryptoFrame, crypto,
  new_token, StreamDirection, bidirectional, unidirectional, NewConnectionIdFrame,
  new_connection_id, ConnectionCloseFrame, connection_close, ApplicationCloseFrame,
  application_close,
}
use flow_q.Frame.Cursor.{append_varints-eq-some, append_varint-eq-some, read_varint_at-bytes}
use flow_q.Frame.Encode.{
  encode_reset_stream, encode_stop_sending, encode_crypto, encode_new_token,
  encode_single_limit_frame, encode_stream_limit_frame, encode_stream_count_frame,
  encode_new_connection_id, encode_path_validation_frame, encode_connection_close,
  encode_application_close,
}
use flow_q.Frame.Decode.{
  decode_frame, decode_body, decode_reset_stream, decode_stop_sending, decode_crypto,
  decode_new_token, decode_single, decode_pair, decode_new_connection_id, read_identifier,
  decode_path_validation, decode_connection_close, decode_application_close,
}
use flow_q.Frame.RoundTrip.Header.{decode_frame-type, read_bytes-append}
use mathlib.Core.List.{append_assoc}

pub reset_stream_round :
    (f : ResetStreamFrame) (rest : List ℕ) {bytes : List ℕ}
    → encode_reset_stream f ≡ ok bytes
    → decode_frame (bytes ++ rest) ≡ ok (reset_stream f, rest)
unfolding encode_reset_stream decode_body decode_reset_stream
reset_stream_round f rest e =
    let (all, w) = append_varints-eq-some [] _ (or_fail-eq-ok _ _ e) in
    let rd = read_varint_at-bytes in
    rw w (
      simp (
        append_assoc,
        decode_frame-type 0x04 (omega arith),
        rd f.stream_id all.1.0,
        rd f.application_error_code all.1.1.0,
        rd f.final_size all.1.1.1.0,
      ))

pub stop_sending_round :
    (f : StopSendingFrame) (rest : List ℕ) {bytes : List ℕ}
    → encode_stop_sending f ≡ ok bytes
    → decode_frame (bytes ++ rest) ≡ ok (stop_sending f, rest)
unfolding encode_stop_sending decode_body decode_stop_sending
stop_sending_round f rest e =
    let (all, w) = append_varints-eq-some [] _ (or_fail-eq-ok _ _ e) in
    let rd = read_varint_at-bytes in
    rw w (
      simp (
        append_assoc,
        decode_frame-type 0x05 (omega arith),
        rd f.stream_id all.1.0,
        rd f.application_error_code all.1.1.0,
      ))

abbrev pub is_bidirectional : StreamDirection → Bool
is_bidirectional bidirectional = true
is_bidirectional unidirectional = false

-- One integer, or two, behind any type of their group.
pub single_round :
    (type value : ℕ) (frame : ℕ → Frame) (sent got : String) (rest : List ℕ) {bytes : List ℕ}
    → encode_single_limit_frame type value sent ≡ ok bytes
    → ((input : List ℕ) → decode_body type input ≡ decode_single frame got input)
    → decode_frame (bytes ++ rest) ≡ ok (frame value, rest)
unfolding encode_single_limit_frame decode_single
single_round type value frame sent got rest e body =
    let (all, w) = append_varints-eq-some [] _ (or_fail-eq-ok _ _ e) in
    rw w
      (simp (append_assoc, decode_frame-type type all.0, body, read_varint_at-bytes value all.1.0))

pub pair_round :
    (type first second : ℕ) (frame : ℕ → ℕ → Frame) (sent got : String) (rest : List ℕ)
    {bytes : List ℕ}
    → encode_stream_limit_frame type first second sent ≡ ok bytes
    → ((input : List ℕ) → decode_body type input ≡ decode_pair frame got input)
    → decode_frame (bytes ++ rest) ≡ ok (frame first second, rest)
unfolding encode_stream_limit_frame decode_pair
pair_round type first second frame sent got rest e body =
    let (all, w) = append_varints-eq-some [] _ (or_fail-eq-ok _ _ e) in
    rw w (
      simp (
        append_assoc,
        decode_frame-type type all.0,
        body,
        read_varint_at-bytes first all.1.0,
        read_varint_at-bytes second all.1.1.0,
      ))

pub crypto_round :
    (f : CryptoFrame) (rest : List ℕ) {bytes : List ℕ}
    → encode_crypto f ≡ ok bytes
    → decode_frame (bytes ++ rest) ≡ ok (crypto f, rest)
unfolding encode_crypto decode_body decode_crypto
crypto_round f rest e =
    let (output, e₁, e₂) = bind-eq-ok _ _ e in
    let (all, w) = append_varints-eq-some [] _ (or_fail-eq-ok _ _ e₁) in
    let rd = read_varint_at-bytes in
    rw (← ok-injective e₂, w)
      (simp (
        append_assoc,
        decode_frame-type 0x06 (omega arith),
        rd f.offset all.1.0,
        rd (length f.bytes) all.1.1.0,
        read_bytes-append,
      ))

pub new_token_round :
    (token rest : List ℕ) {bytes : List ℕ}
    → encode_new_token token ≡ ok bytes
    → decode_frame (bytes ++ rest) ≡ ok (new_token token, rest)
unfolding encode_new_token decode_body decode_new_token
new_token_round token rest e =
    let (filled, e₀) = if-err-eq-ok (length token == 0) _ e in
    let (output, e₁, e₂) = bind-eq-ok _ _ e₀ in
    let (all, w) = append_varints-eq-some [] _ (or_fail-eq-ok _ _ e₁) in
    rw (← ok-injective e₂, w)
      (simp (
        append_assoc,
        decode_frame-type 0x07 (omega arith),
        read_varint_at-bytes (length token) all.1.0,
        filled,
        read_bytes-append,
      ))

pub connection_close_round :
    (f : ConnectionCloseFrame) (rest : List ℕ) {bytes : List ℕ}
    → encode_connection_close f ≡ ok bytes
    → decode_frame (bytes ++ rest) ≡ ok (connection_close f, rest)
unfolding encode_connection_close decode_body decode_connection_close
connection_close_round f rest e =
    let (output, e₁, e₂) = bind-eq-ok _ _ e in
    let (output', e₃, e₄) = bind-eq-ok _ _ e₂ in
    let (all, w) = append_varints-eq-some [] _ (or_fail-eq-ok _ _ e₁) in
    let (size, w') = append_varint-eq-some output (length f.reason) (or_fail-eq-ok _ _ e₃) in
    let rd = read_varint_at-bytes in
    rw (← ok-injective e₄, w', w)
      (simp (
        append_assoc,
        decode_frame-type 0x1c (omega arith),
        rd f.error_code all.1.0,
        rd f.frame_type all.1.1.0,
        rd (length f.reason) size,
        read_bytes-append,
      ))

pub application_close_round :
    (f : ApplicationCloseFrame) (rest : List ℕ) {bytes : List ℕ}
    → encode_application_close f ≡ ok bytes
    → decode_frame (bytes ++ rest) ≡ ok (application_close f, rest)
unfolding encode_application_close decode_body decode_application_close
application_close_round f rest e =
    let (output, e₁, e₂) = bind-eq-ok _ _ e in
    let (output', e₃, e₄) = bind-eq-ok _ _ e₂ in
    let (all, w) = append_varints-eq-some [] _ (or_fail-eq-ok _ _ e₁) in
    let (size, w') = append_varint-eq-some output (length f.reason) (or_fail-eq-ok _ _ e₃) in
    rw (← ok-injective e₄, w', w)
      (simp (
        append_assoc,
        decode_frame-type 0x1d (omega arith),
        read_varint_at-bytes f.error_code all.1.0,
        read_varint_at-bytes (length f.reason) size,
        read_bytes-append,
      ))

-- PATH_CHALLENGE and PATH_RESPONSE, whose array has eight bytes.
pub path_validation_round :
    (type : ℕ) (frame : List ℕ → Frame) (sent got : String) (xs rest : List ℕ) {bytes : List ℕ}
    → length xs ≡ 8
    → encode_path_validation_frame type xs sent ≡ ok bytes
    → ((input : List ℕ) → decode_body type input ≡ decode_path_validation frame got input)
    → decode_frame (bytes ++ rest) ≡ ok (frame xs, rest)
unfolding encode_path_validation_frame decode_path_validation
path_validation_round type frame sent got xs rest eight e body =
    let (output, e₁, e₂) = bind-eq-ok _ _ e in
    let (small, w) = append_varint-eq-some [] type (or_fail-eq-ok _ _ e₁) in
    rw (← ok-injective e₂, w)
      (simp (
        append_assoc,
        decode_frame-type type small,
        body,
        rw eight at (read_bytes-append got xs rest),
      ))

-- The identifier and the token behind it both fit.
two_runs :
    (xs ys rest : List ℕ)
    → length ys ≡ 16
    → (ltb (length (xs ++ (ys ++ rest))) (length xs + 16) ≡ false)
      × (take (length xs) (xs ++ (ys ++ rest)) ≡ xs)
      × (drop (length xs) (xs ++ (ys ++ rest)) ≡ ys ++ rest)
      × (take 16 (ys ++ rest) ≡ ys)
      × (drop 16 (ys ++ rest) ≡ rest)
two_runs xs ys rest h = (
  ground (arith, length-append xs (ys ++ rest), length-append ys rest),
  take-length-append xs (ys ++ rest),
  drop-length-append xs (ys ++ rest),
  rw h at (take-length-append ys rest),
  rw h at (drop-length-append ys rest),
)

pub new_connection_id_round :
    (f : NewConnectionIdFrame) (rest : List ℕ) {bytes : List ℕ}
    → encode_new_connection_id f ≡ ok bytes
    → decode_frame (bytes ++ rest) ≡ ok (new_connection_id f, rest)
unfolding encode_new_connection_id decode_body decode_new_connection_id read_identifier
new_connection_id_round f rest e =
    let (id_size, e₁) =
      if-err-eq-ok (length f.conn_id.bytes == 0 || ltb 20 (length f.conn_id.bytes)) _ e in
    let (token_size, e₂) = if-err-eq-ok (not (length f.stateless_reset_token == 16)) _ e₁ in
    let (order, e₃) = if-err-eq-ok (ltb f.sequence_number f.retire_prior_to) _ e₂ in
    let (output, e₄, e₅) = bind-eq-ok _ _ e₃ in
    let (all, w) = append_varints-eq-some [] _ (or_fail-eq-ok _ _ e₄) in
    let token = f.stateless_reset_token in
    let (fits, id, behind, reset, tail) = two_runs f.conn_id.bytes token rest (ground arith) in
    let rd = read_varint_at-bytes in
    rw (← ok-injective e₅, w)
      (simp (
        append_assoc,
        decode_frame-type 0x18 (omega arith),
        rd f.sequence_number all.1.0,
        rd f.retire_prior_to all.1.1.0,
        rd (length f.conn_id.bytes) all.1.1.1.0,
        order,
        id_size,
        fits,
        id,
        behind,
        reset,
        tail,
      ))

-- MAX_STREAMS and STREAMS_BLOCKED, whose type carries the direction.
pub count_round :
    (bidi uni : ℕ) (direction : StreamDirection) (n : ℕ) (frame : Bool → ℕ → Frame)
    (sent got : String) (rest : List ℕ) {bytes : List ℕ}
    → encode_stream_count_frame bidi uni direction n sent ≡ ok bytes
    → ((input : List ℕ) → decode_body bidi input ≡ decode_single (frame true) got input)
    → ((input : List ℕ) → decode_body uni input ≡ decode_single (frame false) got input)
    → decode_frame (bytes ++ rest) ≡ ok (frame (is_bidirectional direction) n, rest)
unfolding encode_stream_count_frame
count_round bidi uni bidirectional n frame sent got rest e b u =
    single_round bidi n (frame true) sent got rest (unfold encode_single_limit_frame in e) b
count_round bidi uni unidirectional n frame sent got rest e b u =
    single_round uni n (frame false) sent got rest (unfold encode_single_limit_frame in e) u
