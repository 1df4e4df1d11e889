-- ===== src/Packet/Number/Examples.antt =====
-- Runs of the packet number codec, and its theorems at concrete inputs.
use flow_q.Prelude.{◌*◌, ◌%◌, ◌^◌, ◌≡◌, refl, arith, ok, ◌>>=◌, replicate}
use flow_q.Packet.Number.{
  select_packet_number_length, select_from, encode_packet_number, candidate, recover,
  decode_packet_number, read_truncated_packet_number, valid_packet_number_length,
}
use flow_q.Packet.Number.Recover.{decode_packet_number-truncated}
use flow_q.Packet.Number.Exchange.{decode_packet_number-encode}

-- The example of RFC 9000, appendix A.3.
sample_recovered : decode_packet_number 0x9b32 2 0xa82f30ea ≡ ok 0xa82f9b32
unfolding decode_packet_number candidate recover valid_packet_number_length
sample_recovered = refl

-- The highest packet number, expected and overshot.
highest_recovered : decode_packet_number 0xff 1 4611686018427387900 ≡ ok 4611686018427387903
unfolding decode_packet_number candidate recover valid_packet_number_length
highest_recovered = refl

decode_packet_number-truncated_example :
    decode_packet_number (0xa82f9b32 % 2 ^ (2 * 8)) 2 0xa82f30ea ≡ ok 0xa82f9b32
decode_packet_number-truncated_example =
    decode_packet_number-truncated 0xa82f9b32 2 0xa82f30ea (omega arith) (omega arith) (omega arith)
      (omega arith, omega arith)

chosen : select_packet_number_length 0xac5c02 0xabe8b3 ≡ ok 2
unfolding select_packet_number_length select_from
chosen = refl

decode_packet_number-encode_example :
    (encode_packet_number 0xac5c02 2 (replicate 4 0) >>= λ (written, bytes).
    read_truncated_packet_number bytes written >>= λ truncated.
    decode_packet_number truncated written 0xac0000)
    ≡ ok 0xac5c02
decode_packet_number-encode_example =
    decode_packet_number-encode 0xac5c02 0xabe8b3 2 0xac0000 (replicate 4 0) (omega arith) chosen
      (omega arith) (omega arith) (omega arith)
