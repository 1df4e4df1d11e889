-- ===== src/Frame/Examples.antt =====
-- Runs of the frame codec, and its theorems at concrete inputs.
use flow_q.Prelude.{ℕ, ◌≡◌, ◌⊎◌, inr, refl, arith, List, [], ◌∷◌, All, ok, err, some, none}
use flow_q.Prelude.{true, false, Error}
use flow_q.Varint.{encode_varint, decode_varint}
use flow_q.Frame.{Frame, padding, stream, crypto, ack, StreamFrame, CryptoFrame, AckFrame}
use flow_q.Frame.Encode.{
  encode_frame, encode_stream, encode_crypto, encode_ack, append_varints, append_varint,
}
use flow_q.Frame.Decode.{
  decode_frames, decode_frame, decode_body, decode_loop, decode_padding, decode_stream,
  decode_crypto, decode_ack, decode_ack_ranges, decode_ecn_counts, read_varint_at, read_bytes,
}
use flow_q.Frame.WellFormed.{encode_payload}
use flow_q.Frame.RoundTrip.{decode_frame-encode_frame}
use flow_q.Frame.Payload.{decode_frames-encode_payload}
use flow_q.Frame.Sendable.{IsSendable}
use flow_q.Frame.Progress.{decode_frames_total}

abbrev hello : CryptoFrame
hello = record { offset = 0; bytes = 1 ∷ 2 ∷ [] }

abbrev acknowledgement : AckFrame
acknowledgement = record {
  largest_acknowledged = 100;
  ack_delay = 0;
  first_ack_range = 2;
  ranges = record { gap = 1; length = 3 } ∷ [];
  ecn_counts = none;
}

-- The last frame of a payload may leave its length out.
abbrev last_stream : StreamFrame
last_stream = record {
  stream_id = 4;
  offset = 0;
  offset_present = false;
  length_present = false;
  fin = true;
  bytes = 7 ∷ 8 ∷ 9 ∷ [];
}

abbrev sent : List Frame
sent = padding 2 ∷ crypto hello ∷ ack acknowledgement ∷ stream last_stream ∷ []

abbrev wire : List ℕ
wire =
    0 ∷ 0 ∷ 0x06 ∷ 0 ∷ 2 ∷ 1 ∷ 2 ∷ 0x02 ∷ 0x40 ∷ 100 ∷ 0 ∷ 1 ∷ 2 ∷ 1 ∷ 3 ∷ 0x09 ∷ 4 ∷ 7 ∷ 8 ∷ 9 ∷ []

sent_on_wire : encode_payload sent ≡ ok wire
unfolding encode_payload encode_frame encode_crypto encode_ack encode_stream append_varints
    append_varint encode_varint
sent_on_wire = refl

wire_read : decode_frames wire ≡ some (ok sent)
unfolding decode_frames decode_loop decode_frame decode_body decode_padding decode_crypto decode_ack
    decode_ack_ranges decode_ecn_counts decode_stream read_varint_at read_bytes decode_varint
wire_read = refl

decode_frames-encode_payload_example : decode_frames wire ≡ some (ok sent)
decode_frames-encode_payload_example =
    decode_frames-encode_payload (padding 2)
      (crypto hello ∷ ack acknowledgement ∷ stream last_stream ∷ []) wire
      (omega arith, (λ h. h), (tt, tt, (tt, tt, (inr refl, tt, tt)))) sent_on_wire

crypto_on_wire : encode_frame (crypto hello) ≡ ok (0x06 ∷ 0 ∷ 2 ∷ 1 ∷ 2 ∷ [])
unfolding encode_frame encode_crypto append_varints append_varint encode_varint
crypto_on_wire = refl

decode_frame-encode_frame_example :
    decode_frame (0x06 ∷ 0 ∷ 2 ∷ 1 ∷ 2 ∷ 0x01 ∷ []) ≡ ok (crypto hello, 0x01 ∷ [])
decode_frame-encode_frame_example =
    decode_frame-encode_frame (crypto hello) (0x01 ∷ []) (0x06 ∷ 0 ∷ 2 ∷ 1 ∷ 2 ∷ []) tt tt
      crypto_on_wire

decode_frames_total_example :
    ((fs : List Frame) × (decode_frames wire ≡ some (ok fs)) × All IsSendable fs)
    ⊎ ((e : Error) × (decode_frames wire ≡ some (err e)))
decode_frames_total_example = decode_frames_total wire (omega arith)
