-- ===== src/Frame/SendableLong.antt =====
-- The longer frames: ACK, STREAM, NEW_CONNECTION_ID and PADDING return what can be sent again.
use flow_q.Prelude.{ℕ, zero, suc, ◌/◌, ◌≤◌, ◌<◌, ◌≡◌, refl, ap, arith, String, ◌⊎◌, inl, inr}
use flow_q.Prelude.{Option, none, some, List, [], ◌∷◌, ◌++◌, length, take, Bool, true, false}
use flow_q.Prelude.{All, IsByte, All-drop, length-take, length-drop, ltb, ◌==◌, ◌||◌, not}
use flow_q.Prelude.{ok, ◌>>=◌, bit_and, bind-eq-ok, ok-injective, subst}
use flow_q.Frame.Cursor.{Encodable, varints, append_varints_writes, append_varint_writes}
use flow_q.Frame.Encode.{encode_frame, encode_new_connection_id, encode_stream, encode_ack}
use flow_q.Frame.Decode.{decode_new_connection_id, decode_stream}
use flow_q.Frame.Takes.{
  Takes, Takes-bind, Takes-ok, Takes-err, Takes-if, Takes-read, Takes-read_bytes, Takes-weaken,
}
use flow_q.Frame.{Frame}
use flow_q.Frame.Sendable.{IsOk, IsSendable}
use flow_q.Frame.Encode.{encode_ack_ranges, encode_ecn_counts, append_if, stream_type, ack_type}
use flow_q.Frame.Decode.{
  decode_ack, decode_ack_ranges, decode_ecn_counts, decode_padding, read_if, read_identifier,
}
use flow_q.Frame.{AckRange, AckEcnCounts, StreamFrame}
use flow_q.Varint.Bytes.{varint_bytes}

-- The guards of NEW_CONNECTION_ID leave room for the token.
identifier_parts :
    (size sequence retire : ℕ) (input : List ℕ) {xs rest : List ℕ}
    → All IsByte input
    → read_identifier sequence retire size input ≡ ok (xs, rest)
    → (1 ≤ length xs)
      × (length xs ≤ 20)
      × (retire ≤ sequence)
      × (16 ≤ length rest)
      × (length rest ≤ length input)
      × All IsByte rest
unfolding read_identifier
identifier_parts size sequence retire input all e =
    ground (arith, length-take size input, length-drop size input, All-drop IsByte size input all)

identifier_IsOk :
    (sequence retire : ℕ) (xs token : List ℕ)
    → Encodable sequence
    → Encodable retire
    → 1 ≤ length xs
    → length xs ≤ 20
    → retire ≤ sequence
    → length token ≡ 16
    → IsOk (
        encode_new_connection_id (record {
          sequence_number = sequence;
          retire_prior_to = retire;
          conn_id = record { bytes = xs };
          stateless_reset_token = token;
        }))
unfolding encode_new_connection_id
identifier_IsOk sequence retire xs token hs hr some_bytes fits order sixteen =
    let size : (length xs == 0 || ltb 20 (length xs)) ≡ false = ground arith in
    let token_size : (length token == 16) ≡ true = ground arith in
    let ordered : ltb sequence retire ≡ false = ground arith in
    let ints = append_varints_writes [] (0x18 ∷ sequence ∷ retire ∷ length xs ∷ []) (omega arith) in
    rw (size, token_size, ordered, ints) tt

-- The sixteen bytes behind the identifier are there: the guard counted them.
pub decode_new_connection_id-Takes :
    (input : List ℕ) → All IsByte input → Takes IsSendable input (decode_new_connection_id input)
unfolding decode_new_connection_id encode_frame
decode_new_connection_id-Takes input all =
    Takes-bind _ _ (Takes-read _ input all) λ sequence r₁ h₁ a₁.
      Takes-bind _ _ (Takes-read _ r₁ a₁) λ retire r₂ h₂ a₂.
        Takes-bind _ _ (Takes-read _ r₂ a₂) λ size r₃ h₃ a₃. record {
          takes = λ f rest e.
              let ((xs, r₄), e₁, e₂) = bind-eq-ok (read_identifier sequence retire size r₃) _ e in
              let (filled, short, order, room, less, a₄) =
                identifier_parts size sequence retire r₃ a₃ e₁ in
              let sixteen : length (take 16 r₄) ≡ 16 = omega (arith, length-take 16 r₄) in
              let sends =
                identifier_IsOk sequence retire xs (take 16 r₄) h₁ h₂ filled short order sixteen in
              subst
                (λ (t : Frame × List ℕ). IsSendable t.0 × (length t.1 ≤ length r₃) × All IsByte t.1)
                (ok-injective e₂)
                ((tt, sends), omega (arith, length-drop 16 r₄), All-drop IsByte 16 r₄ a₄);
        }

ranges-Takes :
    (n : ℕ) (input : List ℕ)
    → All IsByte input
    → Takes
        (λ rs. (length rs ≡ n) × All (λ (r : AckRange). Encodable r.gap × Encodable r.length) rs)
        input
        (decode_ack_ranges n input)
unfolding decode_ack_ranges
ranges-Takes zero input all = Takes-ok _ (refl, tt) all
ranges-Takes (suc n) input all = Takes-bind _ _ (Takes-read _ input all) λ gap r₁ h₁ a₁.
    Takes-bind _ _ (Takes-read _ r₁ a₁) λ size r₂ h₂ a₂.
      Takes-bind _ _ (ranges-Takes n r₂ a₂)
        λ rs r₃ h₃ a₃. Takes-ok _ (ap suc h₃.0, ((h₁, h₂), h₃.1)) a₃

abbrev EncodableCounts : Option AckEcnCounts → Type 0
EncodableCounts none = Unit
EncodableCounts (some c) = Encodable c.ect0 × Encodable c.ect1 × Encodable c.ce

counts-Takes :
    (present : Bool) (input : List ℕ)
    → All IsByte input
    → Takes EncodableCounts input (decode_ecn_counts present input)
unfolding decode_ecn_counts
counts-Takes false input all = Takes-ok _ tt all
counts-Takes true input all = Takes-bind _ _ (Takes-read _ input all) λ ect0 r₁ h₁ a₁.
    Takes-bind _ _ (Takes-read _ r₁ a₁)
      λ ect1 r₂ h₂ a₂. Takes-bind _ _ (Takes-read _ r₂ a₂) λ ce r₃ h₃ a₃. Takes-ok _ (h₁, h₂, h₃) a₃

ecn_IsOk :
    (output : List ℕ) (c : Option AckEcnCounts)
    → EncodableCounts c
    → IsOk (encode_ecn_counts output c)
unfolding encode_ecn_counts
ecn_IsOk output none h = tt
ecn_IsOk output (some c) h =
    rw (append_varints_writes output (c.ect0 ∷ c.ect1 ∷ c.ce ∷ []) (omega arith)) tt

ranges_IsOk :
    (output : List ℕ) (rs : List AckRange) (c : Option AckEcnCounts)
    → All (λ (r : AckRange). Encodable r.gap × Encodable r.length) rs
    → EncodableCounts c
    → IsOk (encode_ack_ranges output rs >>= λ more. encode_ecn_counts more c)
unfolding encode_ack_ranges
ranges_IsOk output [] c h hc = ecn_IsOk output c hc
ranges_IsOk output (r ∷ rs) c h hc =
    rw (append_varints_writes output (r.gap ∷ r.length ∷ []) (omega arith))
      (ranges_IsOk (output ++ varints (r.gap ∷ r.length ∷ [])) rs c h.1 hc)

type-Encodable : (c : Option AckEcnCounts) → Encodable (ack_type c)
type-Encodable none = omega arith
type-Encodable (some c) = omega arith

pub decode_ack-Takes :
    (type : ℕ) (input : List ℕ) → All IsByte input → Takes IsSendable input (decode_ack type input)
unfolding decode_ack encode_frame encode_ack
decode_ack-Takes type input all = Takes-bind _ _ (Takes-read _ input all) λ largest r₁ h₁ a₁.
    Takes-bind _ _ (Takes-read _ r₁ a₁) λ delay r₂ h₂ a₂.
      Takes-bind _ _ (Takes-read _ r₂ a₂) λ count r₃ h₃ a₃.
        Takes-bind _ _ (Takes-read _ r₃ a₃) λ first r₄ h₄ a₄.
          Takes-bind _ _
            (Takes-if (ltb (length r₄ / 2) count) _ _ (λ e. Takes-err _)
              (λ e. ranges-Takes count r₄ a₄))
            λ rs r₅ h₅ a₅. Takes-bind _ _ (counts-Takes (type == 0x03) r₅ a₅) λ c r₆ h₆ a₆.
              let ints =
                append_varints_writes [] (ack_type c ∷ largest ∷ delay ∷ length rs ∷ first ∷ [])
                  (omega (arith, type-Encodable c)) in
              Takes-ok _ (tt, rw ints (ranges_IsOk _ rs c h₅.1 h₆)) a₆

offset-Takes :
    (present : Bool) (message : String) (input : List ℕ)
    → All IsByte input
    → Takes
        (λ v. ((present ≡ true) ⊎ (v ≡ 0)) × Encodable v)
        input
        (read_if present message 0 input)
offset-Takes true message input all =
    Takes-weaken _ (λ v h. (inl refl, h)) (Takes-read message input all)
offset-Takes false message input all = Takes-ok _ (inr refl, omega arith) all

size-Takes :
    (present : Bool) (message : String) (default : ℕ) (input : List ℕ)
    → All IsByte input
    → Takes (λ v. present ≡ true → Encodable v) input (read_if present message default input)
size-Takes true message default input all =
    Takes-weaken _ (λ v h e. h) (Takes-read message input all)
size-Takes false message default input all = Takes-ok _ (λ e. absurd (cc e)) all

append_if_IsOk :
    (present : Bool) (output : List ℕ) (v : ℕ)
    → (present ≡ true → Encodable v)
    → (more : List ℕ) × (append_if present output v ≡ some more)
append_if_IsOk true output v h = (output ++ varint_bytes v, append_varint_writes output v (h refl))
append_if_IsOk false output v h = (output, refl)

stream_type-Encodable : (op lp fin : Bool) → Encodable (stream_type op lp fin)
stream_type-Encodable false false false = omega arith
stream_type-Encodable false false true = omega arith
stream_type-Encodable false true false = omega arith
stream_type-Encodable false true true = omega arith
stream_type-Encodable true false false = omega arith
stream_type-Encodable true false true = omega arith
stream_type-Encodable true true false = omega arith
stream_type-Encodable true true true = omega arith

stream_IsOk :
    (f : StreamFrame)
    → Encodable f.stream_id
    → Encodable f.offset
    → (f.length_present ≡ true → Encodable (length f.bytes))
    → IsOk (encode_stream f)
unfolding encode_stream
stream_IsOk f hi ho hl =
    let type = stream_type f.offset_present f.length_present f.fin in
    let ints =
      append_varints_writes [] (type ∷ f.stream_id ∷ [])
        (omega (arith, stream_type-Encodable f.offset_present f.length_present f.fin)) in
    let (output, e₁) =
      append_if_IsOk f.offset_present (varints (type ∷ f.stream_id ∷ [])) f.offset (λ e. ho) in
    let (output', e₂) = append_if_IsOk f.length_present output (length f.bytes) hl in
    rw (ints, e₁, e₂) tt

pub decode_stream-Takes :
    (type : ℕ) (input : List ℕ)
    → All IsByte input
    → Takes IsSendable input (decode_stream type input)
unfolding decode_stream encode_frame
decode_stream-Takes type input all = Takes-bind _ _ (Takes-read _ input all) λ id r₁ h₁ a₁.
    Takes-bind _ _ (offset-Takes (not (bit_and type 0x04 == 0)) _ r₁ a₁) λ offset r₂ h₂ a₂.
      Takes-bind _ _ (size-Takes (not (bit_and type 0x02 == 0)) _ (length r₂) r₂ a₂)
        λ size r₃ h₃ a₃.
          Takes-bind _ _ (Takes-read_bytes _ size r₃ a₃)
            λ xs r₄ h₄ a₄. Takes-ok _ (h₂.0, stream_IsOk _ h₁ h₂.1 (λ e. rw h₄ (h₃ e))) a₄

pub decode_padding-Takes :
    (count : ℕ) (input : List ℕ)
    → 0 < count
    → All IsByte input
    → Takes IsSendable input (ok (decode_padding count input))
unfolding decode_padding encode_frame
decode_padding-Takes count [] h all = Takes-ok _ (h, tt) all
decode_padding-Takes count (zero ∷ input) h all = record {
  takes = λ f rest e.
      let (sendable, shorter, a) =
        (decode_padding-Takes (suc count) input (omega arith) all.1).takes f rest e in
      (sendable, omega arith, a);
}
decode_padding-Takes count (suc b ∷ input) h all = Takes-ok _ (h, tt) all
