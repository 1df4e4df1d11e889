-- ===== src/Frame/Cursor.antt =====
-- The two primitives under the frame codec: appending an integer and reading one at the cursor.
use flow_q.Prelude.{ℕ, ◌≤◌, ◌<◌, ◌≡◌, refl, ◌∙◌, ap, inl, inr, arith}
use flow_q.Prelude.{Option-cases, none, some, List, [], ◌∷◌, ◌++◌, length, take, drop, replicate}
use flow_q.Prelude.{All, IsByte, length-drop, take-length-append, drop-length-append}
use flow_q.Prelude.{All-drop, le-cases}
use flow_q.Varint.{max_varint, decode_varint}
use flow_q.Varint.Bytes.{varint_bytes, varint_length, encode_varint_writes}
use flow_q.Varint.RoundTrip.{
  length-varint_bytes, decode_varint-bytes, decode_varint_total, announced_length,
  encode_varint_branches,
}
use flow_q.Frame.Encode.{append_varint, append_varints}
use flow_q.Frame.Decode.{read_varint_at}
use mathlib.Core.List.{append-nil, append_assoc}

abbrev pub Encodable : ℕ → Type 0
Encodable v = v ≤ max_varint

abbrev pub varints : List ℕ → List ℕ
varints [] = []
varints (v ∷ vs) = varint_bytes v ++ varints vs

pub append_varint_writes :
    (output : List ℕ) (v : ℕ)
    → v ≤ max_varint
    → append_varint output v ≡ some (output ++ varint_bytes v)
unfolding append_varint
append_varint_writes output v h =
    rw (encode_varint_writes v (replicate 8 0) h (ground arith), append_varint)
      (ap (λ (t : List ℕ). some (output ++ t)) front)
  where
    front :
        take (varint_length v) (varint_bytes v ++ drop (varint_length v) (replicate 8 0))
        ≡ varint_bytes v
    front = rw (← length-varint_bytes v) (take-length-append (varint_bytes v) _)

pub append_varint-eq-some :
    (output : List ℕ) (v : ℕ) {more : List ℕ}
    → append_varint output v ≡ some more
    → (v ≤ max_varint) × (more ≡ output ++ varint_bytes v)
unfolding append_varint
append_varint-eq-some output v e = elim (le-cases v max_varint) [
  | inl h ↦ (h, cc (append_varint_writes output v h))
  | inr large ↦ ground (arith, (encode_varint_branches v (replicate 8 0)).0 large)
]

pub append_varints_writes :
    (output vs : List ℕ) → All Encodable vs → append_varints output vs ≡ some (output ++ varints vs)
unfolding append_varints
append_varints_writes output [] h = rw append-nil
append_varints_writes output (v ∷ vs) h =
    rw (append_varint_writes output v h.0, append_varints)
      (append_varints_writes (output ++ varint_bytes v) vs h.1
        ∙ ap some (append_assoc output (varint_bytes v) (varints vs)))

pub append_varints-eq-some :
    (output vs : List ℕ) {more : List ℕ}
    → append_varints output vs ≡ some more
    → All Encodable vs × (more ≡ output ++ varints vs)
unfolding append_varints
append_varints-eq-some output [] e = (tt, ground (arith, append-nil output))
append_varints-eq-some output (v ∷ vs) {more} e = elim (Option-cases (append_varint output v)) [
  | inl stuck ↦ absurd (cc stuck)
  | inr (next, first) ↦
      let (small, written) = append_varint-eq-some output v first in
      let (rest, last) =
        append_varints-eq-some next vs {more = more} (rw (first, append_varints) at e) in
      (
        (small, rest),
        last
            ∙ ap (λ (t : List ℕ). t ++ varints vs) written
            ∙ append_assoc output (varint_bytes v) (varints vs),
      )
]

pub read_varint_at-bytes :
    (v : ℕ)
    → v ≤ max_varint
    → (rest : List ℕ) → read_varint_at (varint_bytes v ++ rest) ≡ some (v, rest)
unfolding read_varint_at
read_varint_at-bytes v h rest =
    rw (decode_varint-bytes v rest h, read_varint_at) (ap (λ (t : List ℕ). some (v, t)) behind)
  where
    behind : drop (varint_length v) (varint_bytes v ++ rest) ≡ rest
    behind = rw (← length-varint_bytes v) (drop-length-append (varint_bytes v) rest)

pub read_varint_at-nil : read_varint_at [] ≡ none
unfolding read_varint_at decode_varint
read_varint_at-nil = refl

-- On bytes, reading gives an encodable integer and leaves a shorter suffix of the input.
pub read_varint_at_takes :
    (input : List ℕ) {v : ℕ} {rest : List ℕ}
    → All IsByte input
    → read_varint_at input ≡ some (v, rest)
    → (v ≤ max_varint) × (length rest < length input) × All IsByte rest
unfolding read_varint_at
read_varint_at_takes [] all e = absurd (cc read_varint_at-nil)
read_varint_at_takes (first ∷ more) all e =
    let (short, long) = decode_varint_total first more all in
    elim (le-cases (announced_length first) (length (first ∷ more))) [
      | inl fits ↦
          let (v, read, small) = long fits in
          ground (
            arith,
            length-drop (announced_length first) (first ∷ more),
            All-drop IsByte (announced_length first) (first ∷ more) all,
          )
      | inr cut ↦ ground (arith, short cut)
    ]
