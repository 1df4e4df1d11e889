-- ===== src/Stream/Send/Drained.antt =====
-- A sender that calls `pop_frame` again and again.
use flow_q.Prelude.{
  ℕ, zero, suc, ◌-◌, ◌≤◌, ◌<◌, ◌≡◌, ◌⊎◌, inl, inr, refl, arith, Bool, true, false, not, min,
}
use flow_q.Prelude.{
  List, [], ◌++◌, length, take, drop, take-drop, drop-all, ltb, leb, ◌==◌, ◌&&◌, le-cases,
  Bool-cases, if◌then◌else◌, Option, none, some, ap, sym, ◌∙◌,
}
use flow_q.Stream.Send.{
  StreamSendState, StreamSendResult, pop_frame, pop_ranges, pop_new, pop_unsent, pop_fin,
  make_frame, copy_bytes,
}
use flow_q.Stream.Send.Ranges.{copy_bytes_lem}

abbrev shown : Option StreamSendResult → List ℕ → List ℕ
shown none later = []
shown (some result) later = result.frame.bytes ++ later

-- The bytes of the frames that `rounds` calls hand out, up to the first call without one.
abbrev pub sent_in : ℕ → StreamSendState → ℕ → List ℕ
sent_in zero s most = []
sent_in (suc rounds) s most =
    let (s', answer) = pop_frame s most in shown answer (sent_in rounds s' most)

sent_in_round :
    (rounds : ℕ) (s : StreamSendState) (most : ℕ)
    (answer : StreamSendState × Option StreamSendResult)
    → pop_frame s most ≡ answer
    → sent_in (suc rounds) s most ≡ shown answer.1 (sent_in rounds answer.0 most)
sent_in_round rounds s most answer e = ap (λ a. shown a.1 (sent_in rounds a.0 most)) e

-- Without lost ranges, `pop_frame` is `pop_new`.
pop_frame_new :
    (s : StreamSendState) (most : ℕ)
    → s.stop_requested ≡ false
    → s.lost ≡ []
    → pop_frame s most ≡ pop_new (record s { lost = [] }) most
unfolding pop_frame pop_ranges
pop_frame_new s most running none_lost = rw (running, none_lost) refl

pop_new_unsent :
    (s : StreamSendState) (most : ℕ)
    → 0 < most
    → s.next_unsent_offset < length s.bytes
    → length s.bytes ≤ s.max_data
    → pop_new s most ≡ pop_unsent s (min most (length s.bytes - s.next_unsent_offset))
unfolding pop_new
pop_new_unsent s most room unsent credit =
    let more : ltb s.next_unsent_offset (length s.bytes) && ltb 0 most ≡ true = ground arith in
    let open_credit : leb s.max_data s.next_unsent_offset ≡ false = ground arith in
    let count : min most
          (min (length s.bytes - s.next_unsent_offset) (s.max_data - s.next_unsent_offset))
        ≡ min most (length s.bytes - s.next_unsent_offset) =
      omega arith in
    rw (pop_new, more, open_credit) (ap (pop_unsent s) count)

pop_new_sent :
    (s : StreamSendState) (most : ℕ)
    → s.next_unsent_offset ≡ length s.bytes
    → (pop_new s most ≡ (s, none)) ⊎ (pop_new s most ≡ pop_fin s)
unfolding pop_new
pop_new_sent s most sent =
    let none_left : ltb s.next_unsent_offset (length s.bytes) && ltb 0 most ≡ false =
      ground arith in
    let fin_due : Bool =
      s.finished
      && not s.fin_sent
      && not s.fin_acked
      && s.next_unsent_offset == length s.bytes
      && leb (length s.bytes) s.max_data in
    rw (pop_new, none_left)
      (elim (Bool-cases fin_due) [
        | inl due ↦ inr (ap (λ b. if b then pop_fin s else (s, none)) due)
        | inr idle ↦ inl (ap (λ b. if b then pop_fin s else (s, none)) idle)
      ])

sent_in_end :
    (rounds most : ℕ) (s : StreamSendState)
    → s.stop_requested ≡ false
    → s.lost ≡ []
    → s.next_unsent_offset ≡ length s.bytes
    → sent_in rounds s most ≡ []
unfolding pop_fin make_frame copy_bytes
sent_in_end zero most s running none_lost sent = refl
sent_in_end (suc rounds) most s running none_lost sent =
    let idle : StreamSendState = record s { lost = [] } in
    let start = pop_frame_new s most running none_lost in
    elim (pop_new_sent idle most sent) [
      | inl nothing ↦ sent_in_round rounds s most (idle, none) (start ∙ nothing)
      | inr fin ↦
          sent_in_round rounds s most (pop_fin idle) (start ∙ fin)
          ∙ sent_in_end rounds most (record idle { fin_sent = true }) running refl sent
    ]

-- A stream that is not stopped, has no lost ranges and has credit for all its bytes is drained: as
-- many calls of `pop_frame` as bytes are unsent, with any frame size but 0, hand out exactly the
-- unsent bytes, in order.
pub sent_in-drains :
    (rounds most : ℕ) (s : StreamSendState)
    → s.stop_requested ≡ false
    → s.lost ≡ []
    → 0 < most
    → s.next_unsent_offset ≤ length s.bytes
    → length s.bytes ≤ s.max_data
    → length s.bytes - s.next_unsent_offset ≤ rounds
    → sent_in rounds s most ≡ drop s.next_unsent_offset s.bytes
unfolding pop_unsent make_frame
sent_in-drains zero most s running none_lost room here credit enough =
    let all_sent : s.next_unsent_offset ≡ length s.bytes = omega arith in
    sym (ap (λ k. drop k s.bytes) all_sent ∙ drop-all s.bytes)
sent_in-drains (suc rounds) most s running none_lost room here credit enough =
    let next = s.next_unsent_offset in
    let count = min most (length s.bytes - next) in
    let idle : StreamSendState = record s { lost = [] } in
    elim (le-cases (length s.bytes) next) [
      | inl done ↦
          let all_sent : next ≡ length s.bytes = omega arith in
          sent_in_end (suc rounds) most s running none_lost all_sent
          ∙ sym (ap (λ k. drop k s.bytes) all_sent ∙ drop-all s.bytes)
      | inr unsent ↦
          sent_in_round rounds s most (pop_unsent idle count)
            (pop_frame_new s most running none_lost ∙ pop_new_unsent idle most room unsent credit)
          ∙ ap (◌++ sent_in rounds (pop_unsent idle count).0 most)
              (copy_bytes_lem s.bytes next count (omega arith))
          ∙ ap (take count (drop next s.bytes) ++◌) (
              sent_in-drains rounds most (pop_unsent idle count).0 running refl room (omega arith)
                credit (omega arith))
          ∙ take-drop next count s.bytes
    ]
