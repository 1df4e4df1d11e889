-- ===== src/Stream/SendSet/Ids.antt =====
-- `classify_stream_id` in the terms of RFC 9000: the two low bits of a stream id.
use flow_q.Prelude.{ℕ, ◌%◌, ◌≡◌, ◌∙◌, ap, arith, ltb, ◌==◌, if◌then◌else◌}
use flow_q.Prelude.Bits.{bit_and-ones, bit_and-high_ones}
use flow_q.Frame.{bidirectional, unidirectional}
use flow_q.Stream.SendSet.{client, server, classify_stream_id}

-- Bit 1 is clear in the ids of bidirectional streams.
pub classify_stream_id-direction :
    (id : ℕ)
    → (classify_stream_id id).direction ≡ (if ltb (id % 4) 2 then bidirectional else unidirectional)
unfolding classify_stream_id
classify_stream_id-direction id =
    ap (λ (b : ℕ). if b == 0 then bidirectional else unidirectional) (bit_and-high_ones 1 1 id)
    ∙ ground arith

-- Bit 0 is clear in the ids of a client's streams.
pub classify_stream_id-initiator :
    (id : ℕ) → (classify_stream_id id).initiator ≡ (if id % 2 == 0 then client else server)
unfolding classify_stream_id
classify_stream_id-initiator id =
    ap (λ (b : ℕ). if b == 0 then client else server) (bit_and-ones 1 id) ∙ ground arith
