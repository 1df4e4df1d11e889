-- ===== src/Stream/SendSet/Opened.antt =====
-- The peer's stream limits: `append` and `finish` open no stream past them.
use flow_q.Prelude.{
  ltb, if◌then◌else◌, ◌%◌, ℕ, ◌/◌, ◌≤◌, ◌≡◌, ◌⊎◌, inl, inr, refl, arith, true, false, Option, none,
  some, leb, ◌==◌,
}
use flow_q.Prelude.{
  List, [], ◌∷◌, ◌∙◌, ap, sym, subst, if_cases, if-true, Bool-cases, Result, ok, err, Error,
}
use flow_q.Frame.{StreamDirection, bidirectional, unidirectional}
use flow_q.Stream.Send.{StreamSendState, append, finish, stream_error}
use flow_q.Stream.SendSet.Ids.{classify_stream_id-direction}
use flow_q.Stream.SendSet.{
  StreamSendSet, find, store, classify_stream_id, limit_for, mark_streams_blocked, ensure_state_for,
  or_opened, on_ensured, kept, append_to, finish_stream,
}

find-store :
    (id other : ℕ) (s : StreamSendState) (streams : List (ℕ × StreamSendState))
    → (id == other) ≡ false
    → find other (store id s streams) ≡ find other streams
unfolding find store
find-store id other s [] apart = ground (arith, apart)
find-store id other s ((key, t) ∷ others) apart = elim (Bool-cases (key == id)) [
  | inl same ↦ ground (arith, same, apart)
  | inr new ↦ ground (arith, new, find-store id other s others apart)
]

streams-marked :
    (set : StreamSendSet) (marked : StreamDirection)
    → (mark_streams_blocked set marked).streams ≡ set.streams
unfolding mark_streams_blocked
streams-marked set bidirectional = refl
streams-marked set unidirectional = refl

-- The limit of the peer for the streams of the direction of `id`.
abbrev pub limit_of : StreamSendSet → ℕ → ℕ
limit_of set id =
    if ltb (id % 4) 2 then set.limits.bidirectional_limit else set.limits.unidirectional_limit

limit_for-limit_of :
    (set : StreamSendSet) (id : ℕ)
    → limit_for set (classify_stream_id id).direction ≡ limit_of set id
unfolding limit_for
limit_for-limit_of set id =
    ap (limit_for set) (classify_stream_id-direction id)
    ∙ elim (Bool-cases (ltb (id % 4) 2)) [ inl low ↦ rw low refl | inr high ↦ rw high refl ]

-- The call is answered with the error of the limit where it is for `other`, and leaves that out.
abbrev pub LeavesOut : ℕ → ℕ → StreamSendSet × Option Error → Type 0
LeavesOut id other (set', answer) =
    (find other set'.streams ≡ none)
    × (((id == other) ≡ false) ⊎ (answer ≡ some (stream_error "peer stream count limit exceeded")))

kept-LeavesOut :
    (set : StreamSendSet) (id other : ℕ) (s : StreamSendState) (answer : Result StreamSendState)
    → find other set.streams ≡ none
    → (id == other) ≡ false
    → LeavesOut id other (kept set id s answer)
kept-LeavesOut set id other s (ok s') out apart =
    (find-store id other s' set.streams apart ∙ out, inl apart)
kept-LeavesOut set id other s (err e) out apart =
    (find-store id other s set.streams apart ∙ out, inl apart)

opened-LeavesOut :
    (set : StreamSendSet) (id other : ℕ) (call : StreamSendState → Result StreamSendState)
    (found : Option StreamSendState)
    → find other set.streams ≡ none
    → (id == other) ≡ false
    → LeavesOut id other (on_ensured call id (or_opened set id found))
opened-LeavesOut set id other call (some s) out apart =
    kept-LeavesOut set id other s (call s) out apart
opened-LeavesOut set id other call none out apart =
    let direction = (classify_stream_id id).direction in
    if_cases (λ ensured. LeavesOut id other (on_ensured call id ensured))
      (leb (limit_for set direction) (id / 4))
      (λ past. (ap (find other) (streams-marked set direction) ∙ out, inl apart))
      (λ below. kept-LeavesOut set id other _ (call _) out apart)

past_refused :
    (set : StreamSendSet) (id : ℕ) (call : StreamSendState → Result StreamSendState)
    → find id set.streams ≡ none
    → limit_of set id ≤ id / 4
    → LeavesOut id id (on_ensured call id (ensure_state_for set id))
unfolding ensure_state_for
past_refused set id call out past =
    let direction = (classify_stream_id id).direction in
    let over : leb (limit_for set direction) (id / 4) ≡ true =
      ap (λ (limit : ℕ). leb limit (id / 4)) (limit_for-limit_of set id) ∙ ground (arith, past) in
    let ensured : ensure_state_for set id ≡ (mark_streams_blocked set direction, none) =
      ap (or_opened set id) out ∙ if-true _ over in
    subst (λ e. LeavesOut id id (on_ensured call id e)) (sym ensured)
      (ap (find id) (streams-marked set direction) ∙ out, inr refl)

past-LeavesOut :
    (set : StreamSendSet) (id other : ℕ) (call : StreamSendState → Result StreamSendState)
    → find other set.streams ≡ none
    → limit_of set other ≤ other / 4
    → LeavesOut id other (on_ensured call id (ensure_state_for set id))
unfolding ensure_state_for
past-LeavesOut set id other call out past = elim (Bool-cases (id == other)) [
  | inl same ↦
      let e : other ≡ id = ground (arith, same) in
      subst (λ k. LeavesOut k other (on_ensured call k (ensure_state_for set k))) e
        (past_refused set other call out past)
  | inr apart ↦ opened-LeavesOut set id other call (find id set.streams) out apart
]

-- Whatever streams a set has: a stream that is not in it and whose number is not below the peer's
-- limit for its direction is not in it after `append` and `finish` either, for whichever stream they
-- are called; and where they are called for that stream, they answer with the error of the limit.
pub opening-LeavesOut :
    (set : StreamSendSet) (id other : ℕ) (more : List ℕ)
    → find other set.streams ≡ none
    → limit_of set other ≤ other / 4
    → LeavesOut id other (append_to set id more) × LeavesOut id other (finish_stream set id)
unfolding append_to finish_stream
opening-LeavesOut set id other more out past = (
  past-LeavesOut set id other (λ s. append s more) out past,
  past-LeavesOut set id other finish out past,
)
