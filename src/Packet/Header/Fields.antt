-- ===== src/Packet/Header/Fields.antt =====
-- The fields of the headers, written and read back: versions, connection IDs, lists of versions.
use flow_q.Prelude.{
  ℕ, ◌+◌, ◌*◌, ◌/◌, ◌%◌, ◌^◌, ◌<◌, ◌≤◌, ◌≡◌, ◌∙◌, ap, sym, refl, arith, bit_and, bit_or,
}
use flow_q.Prelude.{false, some, List, [], ◌∷◌, ◌++◌, length, ltb}
use flow_q.Prelude.{take-length-append, drop-length-append, length-append, All, ok, or_fail}
use flow_q.Prelude.{bind-eq-ok, or_fail-eq-ok, String}
use flow_q.Prelude.Bits.{bit_or-shifted}
use flow_q.Varint.{to_byte}
use flow_q.Varint.Bytes.{mask_eight}
use flow_q.Frame.{ConnectionId}
use flow_q.Packet.Header.{
  read_u32, append_u32, read_connection_id, append_connection_id, read_connection_ids,
  append_connection_ids, packet_error,
}
use flow_q.Packet.Header.Encode.{append_versions}
use flow_q.Packet.Header.Decode.{read_versions}
use mathlib.Core.List.{append_assoc, append-nil}

abbrev pub u32_bytes : ℕ → List ℕ
u32_bytes v =
    to_byte (bit_and (v / 2 ^ 24) 0xff)
    ∷ to_byte (bit_and (v / 2 ^ 16) 0xff)
    ∷ to_byte (bit_and (v / 2 ^ 8) 0xff)
    ∷ to_byte (bit_and v 0xff)
    ∷ []

join_lem :
    (a b c d : ℕ)
    → a < 256
    → b < 256
    → c < 256
    → d < 256
    → bit_or (bit_or (bit_or (a * 2 ^ 24 % 2 ^ 32) (b * 2 ^ 16)) (c * 2 ^ 8)) d
      ≡ a * 2 ^ 24 + b * 2 ^ 16 + c * 2 ^ 8 + d
join_lem a b c d ha hb hc hd =
    let small : a * 2 ^ 24 % 2 ^ 32 ≡ a * 2 ^ 24 = omega arith in
    let two : a * 2 ^ 24 + b * 2 ^ 16 ≡ (a * 2 ^ 8 + b) * 2 ^ 16 = omega arith in
    let three : (a * 2 ^ 8 + b) * 2 ^ 16 + c * 2 ^ 8 ≡ (a * 2 ^ 16 + b * 2 ^ 8 + c) * 2 ^ 8 =
      omega arith in
    rw
      (
        small,
        bit_or-shifted 24 a (b * 2 ^ 16) (omega arith),
        two,
        bit_or-shifted 16 (a * 2 ^ 8 + b) (c * 2 ^ 8) (omega arith),
        three,
        bit_or-shifted 8 (a * 2 ^ 16 + b * 2 ^ 8 + c) d hd,
      )
      (omega arith)

pub read_u32-bytes :
    (v : ℕ) (rest : List ℕ) → v < 2 ^ 32 → read_u32 (u32_bytes v ++ rest) ≡ some (v, rest)
unfolding read_u32
read_u32-bytes v rest small =
    rw (mask_eight (v / 2 ^ 24), mask_eight (v / 2 ^ 16), mask_eight (v / 2 ^ 8), mask_eight v)
      (ap (λ (t : ℕ). some (t, rest))
        (join_lem (v / 2 ^ 24 % 256 % 256) (v / 2 ^ 16 % 256 % 256) (v / 2 ^ 8 % 256 % 256)
            (v % 256 % 256) (omega arith) (omega arith) (omega arith) (omega arith)
          ∙ omega arith))

abbrev pub id_bytes : ConnectionId → List ℕ
id_bytes id = to_byte (length id.bytes) ∷ id.bytes

append_connection_id-eq-some :
    (output : List ℕ) (id : ConnectionId) {more : List ℕ}
    → append_connection_id output id ≡ some more
    → (length id.bytes ≤ 255) × (more ≡ output ++ id_bytes id)
unfolding append_connection_id
append_connection_id-eq-some output id e = ground arith

read_connection_id-bytes :
    (id : ConnectionId) (rest : List ℕ)
    → length id.bytes ≤ 255
    → read_connection_id (id_bytes id ++ rest) ≡ some (id, rest)
unfolding read_connection_id
read_connection_id-bytes id rest small =
    let size : to_byte (length id.bytes) ≡ length id.bytes = omega arith in
    let fits : ltb (length (id.bytes ++ rest)) (length id.bytes) ≡ false =
      ground (arith, length-append id.bytes rest) in
    rw (size, fits, take-length-append id.bytes rest, drop-length-append id.bytes rest) refl

-- The two connection IDs of a long header.
pub append_connection_ids-eq-ok :
    (message : String) (output : List ℕ) (destination source : ConnectionId) {more : List ℕ}
    → append_connection_ids message output destination source ≡ ok more
    → (length destination.bytes ≤ 255)
      × (length source.bytes ≤ 255)
      × (more ≡ (output ++ id_bytes destination) ++ id_bytes source)
unfolding append_connection_ids
append_connection_ids-eq-ok message output destination source e =
    let (middle, first, last) =
      bind-eq-ok (or_fail (append_connection_id output destination) (packet_error message)) _ e in
    let (small, written) =
      append_connection_id-eq-some output destination (or_fail-eq-ok _ _ first) in
    let (small', written') = append_connection_id-eq-some middle source (or_fail-eq-ok _ _ last) in
    (small, small', written' ∙ ap (◌++ id_bytes source) written)

pub read_connection_ids-bytes :
    (message : String) (destination source : ConnectionId) (rest : List ℕ)
    → length destination.bytes ≤ 255
    → length source.bytes ≤ 255
    → read_connection_ids message (id_bytes destination ++ (id_bytes source ++ rest))
      ≡ ok (destination, source, rest)
unfolding read_connection_ids
read_connection_ids-bytes message destination source rest small small' =
    rw
      (
        read_connection_id-bytes destination (id_bytes source ++ rest) small,
        read_connection_id-bytes source rest small',
      )
      refl

abbrev pub version_bytes : List ℕ → List ℕ
version_bytes [] = []
version_bytes (v ∷ vs) = u32_bytes v ++ version_bytes vs

pub append_versions_lem :
    (output versions : List ℕ) → append_versions output versions ≡ output ++ version_bytes versions
unfolding append_versions append_u32
append_versions_lem output [] = sym (append-nil output)
append_versions_lem output (v ∷ vs) =
    append_versions_lem (output ++ u32_bytes v) vs
    ∙ append_assoc output (u32_bytes v) (version_bytes vs)

pub read_versions-bytes :
    (versions : List ℕ)
    → All (λ v. v < 2 ^ 32) versions
    → read_versions (version_bytes versions) ≡ ok versions
unfolding read_versions
read_versions-bytes [] all = refl
read_versions-bytes (v ∷ vs) all =
    rw (read_u32-bytes v (version_bytes vs) all.0, read_versions-bytes vs all.1) refl

pub length-version_bytes :
    (versions : List ℕ) → length (version_bytes versions) ≡ 4 * length versions
length-version_bytes [] = refl
length-version_bytes (v ∷ vs) = omega (arith, length-version_bytes vs)
