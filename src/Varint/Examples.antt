-- ===== src/Varint/Examples.antt =====
-- Runs of the integer codec, and its theorems at concrete inputs.
use flow_q.Prelude.{◌≡◌, refl, arith, [], ◌∷◌, ok, err, replicate, codec_error}
use flow_q.Varint.{encode_varint, decode_varint, truncated}
use flow_q.Varint.RoundTrip.{decode-encode, decode_varint_total, encode_varint_branches}

-- RFC 9000, appendix A.1.
decode_rfc_eight :
    decode_varint (0xc2 ∷ 0x19 ∷ 0x7c ∷ 0x5e ∷ 0xff ∷ 0x14 ∷ 0xe8 ∷ 0x8c ∷ [])
    ≡ ok (151288809941952652, 8)
unfolding decode_varint
decode_rfc_eight = refl

decode_rfc_four : decode_varint (0x9d ∷ 0x7f ∷ 0x3e ∷ 0x7d ∷ []) ≡ ok (494878333, 4)
unfolding decode_varint
decode_rfc_four = refl

-- A form that is longer than it need be is accepted.
decode_rfc_padded : decode_varint (0x40 ∷ 0x25 ∷ []) ≡ ok (37, 2)
unfolding decode_varint
decode_rfc_padded = refl

encode_two : encode_varint 15293 (replicate 8 0) ≡ ok (2, 0x7b ∷ 0xbd ∷ replicate 6 0)
unfolding encode_varint
encode_two = refl

encode_four : encode_varint 494878333 (replicate 4 0) ≡ ok (4, 0x9d ∷ 0x7f ∷ 0x3e ∷ 0x7d ∷ [])
unfolding encode_varint
encode_four = refl

decode-encode_example : decode_varint (0x9d ∷ 0x7f ∷ 0x3e ∷ 0x7d ∷ []) ≡ ok (494878333, 4)
decode-encode_example = (decode-encode 494878333 (replicate 4 0) 4 _ encode_four).0

decode_varint_total_example : decode_varint (0xc2 ∷ 0x19 ∷ []) ≡ err truncated
decode_varint_total_example = (decode_varint_total 0xc2 (0x19 ∷ []) (omega arith)).0 (omega arith)

encode_varint_branches_example :
    encode_varint 4611686018427387904 (replicate 8 0)
    ≡ err (codec_error "QUIC varint value exceeds 2^62 - 1")
encode_varint_branches_example =
    (encode_varint_branches 4611686018427387904 (replicate 8 0)).0 (omega arith)
