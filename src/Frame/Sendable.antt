-- ===== src/Frame/Sendable.antt =====
-- Each decoder of a frame returns a frame that `encode_frame` accepts and that is well formed.
use flow_q.Prelude.{ℕ, ◌<◌, ◌≡◌, arith, String}
use flow_q.Prelude.{List, [], ◌∷◌, length, false}
use flow_q.Prelude.{All, IsByte, ◌==◌}
use flow_q.Prelude.{Result, ok, err}
use flow_q.Frame.Cursor.{Encodable, varints, append_varints_writes, append_varint_writes}
use flow_q.Frame.Encode.{
  encode_frame, encode_reset_stream, encode_stop_sending, encode_crypto, encode_new_token,
  encode_single_limit_frame, encode_stream_limit_frame, encode_stream_count_frame,
  encode_path_validation_frame, encode_connection_close, encode_application_close,
}
use flow_q.Frame.Decode.{
  decode_reset_stream, decode_stop_sending, decode_crypto, decode_new_token, decode_single,
  decode_pair, decode_path_validation, decode_connection_close, decode_application_close,
}
use flow_q.Frame.WellFormed.{IsWellFormed}
use flow_q.Frame.Takes.{
  Takes, Takes-bind, Takes-ok, Takes-err, Takes-if, Takes-read, Takes-read_bytes, Takes-weaken,
}
use flow_q.Frame.{Frame, StreamDirection, bidirectional, unidirectional}

abbrev pub IsOk {ℓ} : {A : Type ℓ} → Result A → Type 0
IsOk (ok a) = Unit
IsOk (err e) = ⊥

abbrev pub IsSendable : Frame → Type 0
IsSendable f = IsWellFormed f × IsOk (encode_frame f)

pub decode_reset_stream-Takes :
    (input : List ℕ) → All IsByte input → Takes IsSendable input (decode_reset_stream input)
unfolding decode_reset_stream encode_frame encode_reset_stream
decode_reset_stream-Takes input all = Takes-bind _ _ (Takes-read _ input all) λ id r₁ h₁ a₁.
    Takes-bind _ _ (Takes-read _ r₁ a₁) λ code r₂ h₂ a₂.
      Takes-bind _ _ (Takes-read _ r₂ a₂) λ size r₃ h₃ a₃.
        let ints = append_varints_writes [] (0x04 ∷ id ∷ code ∷ size ∷ []) (omega arith) in
        Takes-ok _ (tt, rw ints tt) a₃

pub decode_stop_sending-Takes :
    (input : List ℕ) → All IsByte input → Takes IsSendable input (decode_stop_sending input)
unfolding decode_stop_sending encode_frame encode_stop_sending
decode_stop_sending-Takes input all = Takes-bind _ _ (Takes-read _ input all) λ id r₁ h₁ a₁.
    Takes-bind _ _ (Takes-read _ r₁ a₁) λ code r₂ h₂ a₂.
      let ints = append_varints_writes [] (0x05 ∷ id ∷ code ∷ []) (omega arith) in
      Takes-ok _ (tt, rw ints tt) a₂

pub decode_single-Takes :
    (frame : ℕ → Frame) (message : String) (input : List ℕ)
    → ((n : ℕ) → Encodable n → IsSendable (frame n))
    → All IsByte input
    → Takes IsSendable input (decode_single frame message input)
unfolding decode_single
decode_single-Takes frame message input sendable all =
    Takes-bind _ _ (Takes-read _ input all) λ n r₁ h₁ a₁. Takes-ok _ (sendable n h₁) a₁

pub decode_pair-Takes :
    (frame : ℕ → ℕ → Frame) (message : String) (input : List ℕ)
    → ((n m : ℕ) → Encodable n → Encodable m → IsSendable (frame n m))
    → All IsByte input
    → Takes IsSendable input (decode_pair frame message input)
unfolding decode_pair
decode_pair-Takes frame message input sendable all =
    Takes-bind _ _ (Takes-read _ input all) λ n r₁ h₁ a₁.
      Takes-bind _ _ (Takes-read _ r₁ a₁) λ m r₂ h₂ a₂. Takes-ok _ (sendable n m h₁ h₂) a₂

pub single_limit_IsOk :
    (type n : ℕ) (message : String)
    → Encodable type
    → Encodable n
    → IsOk (encode_single_limit_frame type n message)
unfolding encode_single_limit_frame
single_limit_IsOk type n message ht hn =
    rw (append_varints_writes [] (type ∷ n ∷ []) (omega arith)) tt

pub stream_limit_IsOk :
    (type id n : ℕ) (message : String)
    → Encodable type
    → Encodable id
    → Encodable n
    → IsOk (encode_stream_limit_frame type id n message)
unfolding encode_stream_limit_frame
stream_limit_IsOk type id n message ht hi hn =
    rw (append_varints_writes [] (type ∷ id ∷ n ∷ []) (omega arith)) tt

pub stream_count_IsOk :
    (bidi uni n : ℕ) (direction : StreamDirection) (message : String)
    → Encodable bidi
    → Encodable uni
    → Encodable n
    → IsOk (encode_stream_count_frame bidi uni direction n message)
unfolding encode_stream_count_frame
stream_count_IsOk bidi uni n bidirectional message hb hu hn =
    rw (append_varints_writes [] (bidi ∷ n ∷ []) (omega arith)) tt
stream_count_IsOk bidi uni n unidirectional message hb hu hn =
    rw (append_varints_writes [] (uni ∷ n ∷ []) (omega arith)) tt

pub decode_crypto-Takes :
    (input : List ℕ) → All IsByte input → Takes IsSendable input (decode_crypto input)
unfolding decode_crypto encode_frame encode_crypto
decode_crypto-Takes input all = Takes-bind _ _ (Takes-read _ input all) λ offset r₁ h₁ a₁.
    Takes-bind _ _ (Takes-read _ r₁ a₁) λ size r₂ h₂ a₂.
      Takes-bind _ _ (Takes-read_bytes _ size r₂ a₂) λ xs r₃ h₃ a₃.
        let ints = append_varints_writes [] (0x06 ∷ offset ∷ length xs ∷ []) (omega arith) in
        Takes-ok _ (tt, rw ints tt) a₃

pub decode_new_token-Takes :
    (input : List ℕ) → All IsByte input → Takes IsSendable input (decode_new_token input)
unfolding decode_new_token encode_frame encode_new_token
decode_new_token-Takes input all = Takes-bind _ _ (Takes-read _ input all) λ size r₁ h₁ a₁.
    Takes-bind _ _
      (Takes-if (size == 0) _ _ (λ e. Takes-err _)
        (λ e. Takes-weaken _ (λ xs p. (ground arith)) (Takes-read_bytes _ size r₁ a₁)))
      λ xs r₂ (h₂ : (0 < length xs) × Encodable (length xs)) a₂.
        let ints = append_varints_writes [] (0x07 ∷ length xs ∷ []) (omega arith) in
        let filled : (length xs == 0) ≡ false = ground arith in
        Takes-ok _ (tt, rw (filled, ints) tt) a₂

pub decode_connection_close-Takes :
    (input : List ℕ) → All IsByte input → Takes IsSendable input (decode_connection_close input)
unfolding decode_connection_close encode_frame encode_connection_close
decode_connection_close-Takes input all = Takes-bind _ _ (Takes-read _ input all) λ code r₁ h₁ a₁.
    Takes-bind _ _ (Takes-read _ r₁ a₁) λ type r₂ h₂ a₂.
      Takes-bind _ _ (Takes-read _ r₂ a₂) λ size r₃ h₃ a₃.
        Takes-bind _ _ (Takes-read_bytes _ size r₃ a₃) λ xs r₄ h₄ a₄.
          let ints = append_varints_writes [] (0x1c ∷ code ∷ type ∷ []) (omega arith) in
          let size =
            append_varint_writes (varints (0x1c ∷ code ∷ type ∷ [])) (length xs) (omega arith) in
          Takes-ok _ (tt, rw (ints, size) tt) a₄

pub decode_application_close-Takes :
    (input : List ℕ) → All IsByte input → Takes IsSendable input (decode_application_close input)
unfolding decode_application_close encode_frame encode_application_close
decode_application_close-Takes input all = Takes-bind _ _ (Takes-read _ input all) λ code r₁ h₁ a₁.
    Takes-bind _ _ (Takes-read _ r₁ a₁) λ size r₂ h₂ a₂.
      Takes-bind _ _ (Takes-read_bytes _ size r₂ a₂) λ xs r₃ h₃ a₃.
        let ints = append_varints_writes [] (0x1d ∷ code ∷ []) (omega arith) in
        let size = append_varint_writes (varints (0x1d ∷ code ∷ [])) (length xs) (omega arith) in
        Takes-ok _ (tt, rw (ints, size) tt) a₃

pub decode_path_validation-Takes :
    (frame : List ℕ → Frame) (message : String) (input : List ℕ)
    → ((xs : List ℕ) → length xs ≡ 8 → IsSendable (frame xs))
    → All IsByte input
    → Takes IsSendable input (decode_path_validation frame message input)
unfolding decode_path_validation
decode_path_validation-Takes frame message input sendable all =
    Takes-bind _ _ (Takes-read_bytes _ 8 input all) λ xs r₁ h₁ a₁. Takes-ok _ (sendable xs h₁) a₁

pub path_IsOk :
    (type : ℕ) (xs : List ℕ) (message : String)
    → Encodable type
    → IsOk (encode_path_validation_frame type xs message)
unfolding encode_path_validation_frame
path_IsOk type xs message h = rw (append_varint_writes [] type h) tt
