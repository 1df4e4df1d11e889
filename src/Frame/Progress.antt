-- ===== src/Frame/Progress.antt =====
-- `decode_frames` on any bytes: it ends, and every frame of a result can be sent again.
use flow_q.Prelude.{ℕ, zero, suc, ◌≤◌, ◌<◌, ◌≡◌, refl, arith, ◌⊎◌, inl, inr}
use flow_q.Prelude.{some, List, [], ◌∷◌, ◌++◌, length}
use flow_q.Prelude.{All, IsByte, All-append, leb, ◌==◌, ◌||◌, ◌&&◌}
use flow_q.Prelude.{Error, Result, ok, err, bind-eq-ok, or_fail-eq-ok}
use flow_q.Frame.{
  Frame, ping, max_data, data_blocked, retire_connection_id, handshake_done, path_challenge,
  path_response,
}
use flow_q.Frame.Cursor.{read_varint_at_takes}
use flow_q.Frame.Encode.{encode_frame}
use flow_q.Frame.Decode.{
  decode_frame, decode_body, decode_loop, decode_frames, read, stream_limit, stream_blocked,
  stream_count, streams_limit,
}
use flow_q.Frame.Takes.{Takes, Takes-ok, Takes-err, Takes-if}
use flow_q.Frame.Sendable.{
  IsSendable, decode_reset_stream-Takes, decode_stop_sending-Takes, decode_single-Takes,
  decode_pair-Takes, decode_crypto-Takes, decode_new_token-Takes, decode_connection_close-Takes,
  decode_application_close-Takes, decode_path_validation-Takes, single_limit_IsOk,
  stream_limit_IsOk, stream_count_IsOk, path_IsOk,
}
use flow_q.Frame.SendableLong.{
  decode_ack-Takes, decode_stream-Takes, decode_new_connection_id-Takes, decode_padding-Takes,
}

-- The dispatch: one branch for each type.
decode_body-Takes :
    (type : ℕ) (input : List ℕ) → All IsByte input → Takes IsSendable input (decode_body type input)
unfolding decode_body encode_frame
decode_body-Takes type input all =
    Takes-if (type == 0x00) _ _ (λ _. decode_padding-Takes 1 input (omega arith) all)
      λ _.
        Takes-if (type == 0x01) _ _ (λ _. Takes-ok ping (tt, tt) all)
          λ _.
            Takes-if (type == 0x02 || type == 0x03) _ _ (λ _. decode_ack-Takes type input all)
              λ _.
                Takes-if (type == 0x04) _ _ (λ _. decode_reset_stream-Takes input all)
                  λ _.
                    Takes-if (type == 0x05) _ _ (λ _. decode_stop_sending-Takes input all)
                      λ _.
                        Takes-if (type == 0x06) _ _ (λ _. decode_crypto-Takes input all)
                          λ _.
                            Takes-if (type == 0x07) _ _ (λ _. decode_new_token-Takes input all)
                              λ _.
                                Takes-if (leb 0x08 type && leb type 0x0f) _ _
                                  (λ _. decode_stream-Takes type input all)
                                  λ _.
                                    Takes-if (type == 0x10) _ _
                                      (λ _.
                                        decode_single-Takes max_data _ input
                                          (λ n h. (tt, single_limit_IsOk 0x10 n _ (omega arith) h))
                                          all)
                                      λ _.
                                        Takes-if (type == 0x11) _ _
                                          (λ _.
                                            decode_pair-Takes stream_limit _ input
                                              (λ id n h k. (
                                                tt,
                                                stream_limit_IsOk 0x11 id n _ (omega arith) h k,
                                              ))
                                              all)
                                          λ _.
                                            Takes-if (type == 0x14) _ _
                                              (λ _.
                                                decode_single-Takes data_blocked _ input
                                                  (λ n h. (
                                                    tt,
                                                    single_limit_IsOk 0x14 n _ (omega arith) h,
                                                  ))
                                                  all)
                                              λ _.
                                                Takes-if (type == 0x15) _ _
                                                  (λ _.
                                                    decode_pair-Takes stream_blocked _ input
                                                      (λ id n h k. (
                                                        tt,
                                                        stream_limit_IsOk 0x15 id n _ (omega arith)
                                                            h k,
                                                      ))
                                                      all)
                                                  λ _.
                                                    Takes-if (type == 0x12 || type == 0x13) _ _
                                                      (λ _.
                                                        decode_single-Takes
                                                          (stream_count (type == 0x12)) _ input
                                                          (λ n h. (
                                                            tt,
                                                            stream_count_IsOk 0x12 0x13 n _ _
                                                            (omega arith) (omega arith) h,
                                                          ))
                                                          all)
                                                      λ _.
                                                        Takes-if (type == 0x16 || type == 0x17) _ _
                                                          (λ _.
                                                            decode_single-Takes
                                                            (streams_limit (type == 0x16)) _ input
                                                            (λ n h. (
                                                            tt,
                                                            stream_count_IsOk 0x16 0x17 n _ _
                                                            (omega arith) (omega arith) h,
                                                            ))
                                                            all)
                                                          λ _.
                                                            Takes-if (type == 0x18) _ _
                                                            (λ _.
                                                            decode_new_connection_id-Takes input
                                                            all)
                                                            λ _.
                                                            Takes-if (type == 0x19) _ _
                                                            (λ _.
                                                            decode_single-Takes retire_connection_id
                                                            _ input
                                                            (λ n h. (
                                                            tt,
                                                            single_limit_IsOk 0x19 n _ (omega arith)
                                                            h,
                                                            ))
                                                            all)
                                                            λ _.
                                                            Takes-if (type == 0x1a) _ _
                                                            (λ _.
                                                            decode_path_validation-Takes
                                                            path_challenge _ input
                                                            (λ xs h.
                                                            (h, path_IsOk 0x1a xs _ (omega arith)))
                                                            all)
                                                            λ _.
                                                            Takes-if (type == 0x1b) _ _
                                                            (λ _.
                                                            decode_path_validation-Takes
                                                            path_response _ input
                                                            (λ xs h.
                                                            (h, path_IsOk 0x1b xs _ (omega arith)))
                                                            all)
                                                            λ _.
                                                            Takes-if (type == 0x1c) _ _
                                                            (λ _.
                                                            decode_connection_close-Takes input all)
                                                            λ _.
                                                            Takes-if (type == 0x1d) _ _
                                                            (λ _.
                                                            decode_application_close-Takes input
                                                            all)
                                                            λ _.
                                                            Takes-if (type == 0x1e) _ _
                                                            (λ _.
                                                            Takes-ok handshake_done (tt, tt) all)
                                                            (λ _. Takes-err _)

-- The type alone takes a byte, so every round moves the cursor.
pub decode_frame_takes :
    (input : List ℕ) (f : Frame) (rest : List ℕ)
    → All IsByte input
    → decode_frame input ≡ ok (f, rest)
    → IsSendable f × (length rest < length input) × All IsByte rest
unfolding decode_frame
decode_frame_takes input f rest all e =
    let ((type, behind), e₁, e₂) = bind-eq-ok (read "truncated QUIC frame type" input) _ e in
    let (small, shorter, all') = read_varint_at_takes input all (or_fail-eq-ok _ _ e₁) in
    let (sendable, less, all'') = (decode_body-Takes type behind all').takes f rest e₂ in
    (sendable, omega arith, all'')

Result-cases {ℓ} :
    {A : Type ℓ} (r : Result A) → ((a : A) × (r ≡ ok a)) ⊎ ((e : Error) × (r ≡ err e))
Result-cases (ok a) = inl (a, refl)
Result-cases (err e) = inr (e, refl)

-- With a round for each byte the loop ends, and keeps the frames sendable.
decode_loop_total :
    (fuel : ℕ) (frames : List Frame) (input : List ℕ)
    → length input ≤ fuel
    → All IsByte input
    → All IsSendable frames
    → ((fs : List Frame) × (decode_loop fuel frames input ≡ some (ok fs)) × All IsSendable fs)
      ⊎ ((e : Error) × (decode_loop fuel frames input ≡ some (err e)))
unfolding decode_loop
decode_loop_total zero frames [] enough all h = inl (frames, refl, h)
decode_loop_total (suc fuel) frames [] enough all h = inl (frames, refl, h)
decode_loop_total zero frames (b ∷ input) enough all h = absurd (omega arith)
decode_loop_total (suc fuel) frames (b ∷ input) enough all h =
    elim (Result-cases (decode_frame (b ∷ input))) [
      | inl ((f, rest), e) ↦
          let (sendable, shorter, all') = decode_frame_takes (b ∷ input) f rest all e in
          rw (e, decode_loop)
            (decode_loop_total fuel (frames ++ (f ∷ [])) rest (omega arith) all'
              (All-append IsSendable frames (f ∷ []) h (sendable, tt)))
      | inr (x, e) ↦ inr (x, rw (e, decode_loop))
    ]

-- On any bytes `decode_frames` returns: frames, each well formed and accepted by `encode_frame`, or
-- an error.
pub decode_frames_total :
    (input : List ℕ)
    → All IsByte input
    → ((fs : List Frame) × (decode_frames input ≡ some (ok fs)) × All IsSendable fs)
      ⊎ ((e : Error) × (decode_frames input ≡ some (err e)))
unfolding decode_frames
decode_frames_total [] all = inr (_, refl)
decode_frames_total (b ∷ input) all =
    decode_loop_total (length (b ∷ input)) [] (b ∷ input) (omega arith) all tt
