-- ===== src/Frame/RoundTrip/Header.antt =====
-- What every frame's proof begins with: the type in front, and a run of bytes behind its length.
use flow_q.Prelude.{ℕ, ◌≡◌, arith, List, ◌++◌, length}
use flow_q.Prelude.{ok, String, take-length-append, drop-length-append, length-append}
use flow_q.Varint.Bytes.{varint_bytes}
use flow_q.Frame.Cursor.{Encodable, read_varint_at-bytes}
use flow_q.Frame.Decode.{decode_frame, decode_body, read_bytes}

-- `decode_frame` dispatches on the type that stands in front.
pub decode_frame-type :
    (type : ℕ)
    → Encodable type
    → (rest : List ℕ) → decode_frame (varint_bytes type ++ rest) ≡ decode_body type rest
unfolding decode_frame
decode_frame-type type h rest = rw (read_varint_at-bytes type h rest)

pub read_bytes-append :
    (message : String) (xs rest : List ℕ)
    → read_bytes message (length xs) (xs ++ rest) ≡ ok (xs, rest)
unfolding read_bytes
read_bytes-append message xs rest =
    ground (arith, length-append xs rest, take-length-append xs rest, drop-length-append xs rest)
