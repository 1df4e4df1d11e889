-- ===== src/Stream/Receive/Outcome.antt =====
-- What comes of the frames of a stream within its limit: the same bytes in any order, and a closed
-- stream where they are all there.
use flow_q.Prelude.{
  ℕ, suc, ◌≤◌, ◌<◌, ◌≡◌, ◌≢◌, inl, inr, refl, arith, Bool, true, false, Option, none, some,
}
use flow_q.Prelude.{
  List, [], ◌∷◌, length, get_elem?, ltb, ◌==◌, ◌&&◌, ◌||◌, map, if◌then◌else◌, ◌∙◌, ap, sym,
  le-cases, Bool-cases, u64_max,
}
use flow_q.Frame.{StreamFrame}
use flow_q.Stream.Receive.{is_value, closed}
use flow_q.Stream.Receive.Received.{covers, get_elem?-some}
use flow_q.Stream.Receive.Events.{arrived, run, opened, covered, IsCoveredPrefix}
use flow_q.Stream.Receive.Reassembly.{Reassembles-IsCoveredPrefix}
use flow_q.Stream.Receive.Accepted.{AreParts, any_fin}
use flow_q.Stream.Receive.Complete.{run-parts}

IsCoveredPrefix-by :
    (content : ℕ → ℕ) (frames frames' : List StreamFrame) (output : List ℕ)
    → ((i : ℕ) → covered frames i ≡ covered frames' i)
    → IsCoveredPrefix content frames output
    → IsCoveredPrefix content frames' output
IsCoveredPrefix-by content frames frames' output same (at, due) = (
  λ i. at i ∙ ap (λ c. if ltb i (length output) && c then some (content i) else none) (same i),
  sym (same (length output)) ∙ due,
)

some_if :
    (content : ℕ → ℕ) (a b : Bool) (i : ℕ)
    → (if a && b then some (content i) else none) ≢ none
    → b ≡ true
some_if content true true i h = refl
some_if content true false i h = absurd (h refl)
some_if content false b i h = absurd (h refl)

inside-covered :
    (content : ℕ → ℕ) (frames : List StreamFrame) (output : List ℕ) (i : ℕ)
    → IsCoveredPrefix content frames output
    → i < length output
    → covered frames i ≡ true
inside-covered content frames output i (at, due) h =
    some_if content (ltb i (length output)) (covered frames i) i
      (λ nothing. get_elem?-some output i h (at i ∙ nothing))

-- No longer output than another of the same frames.
no_longer :
    (content : ℕ → ℕ) (frames : List StreamFrame) (xs ys : List ℕ)
    → IsCoveredPrefix content frames xs
    → IsCoveredPrefix content frames ys
    → length xs ≤ length ys
no_longer content frames xs ys front front' = elim (le-cases (length xs) (length ys)) [
  | inl h ↦ h
  | inr h ↦ absurd (cc (inside-covered content frames xs (length ys) front h, front'.1))
]

get_elem?-ext : (xs ys : List ℕ) → ((i : ℕ) → get_elem? xs i ≡ get_elem? ys i) → xs ≡ ys
get_elem?-ext [] [] same = refl
get_elem?-ext [] (y ∷ ys) same = absurd (cc (same 0))
get_elem?-ext (x ∷ xs) [] same = absurd (cc (same 0))
get_elem?-ext (x ∷ xs) (y ∷ ys) same =
    let head : some x ≡ some y = same 0 in
    let tail : xs ≡ ys = get_elem?-ext xs ys (λ i. same (suc i)) in cc (head, tail)

prefix_unique :
    (content : ℕ → ℕ) (frames : List StreamFrame) (xs ys : List ℕ)
    → IsCoveredPrefix content frames xs
    → IsCoveredPrefix content frames ys
    → xs ≡ ys
prefix_unique content frames xs ys front front' =
    let more = no_longer content frames xs ys front front' in
    let less = no_longer content frames ys xs front' front in
    let same : length xs ≡ length ys = omega (arith, more, less) in
    get_elem?-ext xs ys (λ i.
      front.0 i
      ∙ ap (λ n. if ltb i n && covered frames i then some (content i) else none) same
      ∙ sym (front'.0 i))

parts-IsCoveredPrefix :
    (content : ℕ → ℕ) (size max_data : ℕ) (frames : List StreamFrame)
    → size ≤ max_data
    → size ≤ u64_max
    → AreParts content size frames
    → IsCoveredPrefix content frames (run (opened max_data) (map arrived frames)).output
parts-IsCoveredPrefix content size max_data frames limit word parts =
    let (fine, same, fin) = run-parts content size max_data frames limit word parts in
    let t = run (opened max_data) (map arrived frames) in
    IsCoveredPrefix-by content t.accepted frames t.output same
      (Reassembles-IsCoveredPrefix content t fine.reassembles)

-- Two runs of frames of one stream, within the limit of each, that cover the same offsets hand out
-- the same bytes: the order of the frames, their repetition and how they overlap make no difference.
pub run_any_order :
    (content : ℕ → ℕ) (size max_data max_data' : ℕ) (frames frames' : List StreamFrame)
    → size ≤ max_data
    → size ≤ max_data'
    → size ≤ u64_max
    → AreParts content size frames
    → AreParts content size frames'
    → ((i : ℕ) → covered frames i ≡ covered frames' i)
    → (run (opened max_data) (map arrived frames)).output
      ≡ (run (opened max_data') (map arrived frames')).output
run_any_order content size max_data max_data' frames frames' limit limit' word parts parts' same =
    prefix_unique content frames' _ _
      (IsCoveredPrefix-by content frames frames' _ same
        (parts-IsCoveredPrefix content size max_data frames limit word parts))
      (parts-IsCoveredPrefix content size max_data' frames' limit' word parts')

covered_within :
    (content : ℕ → ℕ) (size : ℕ) (frames : List StreamFrame) (i : ℕ)
    → AreParts content size frames
    → covered frames i ≡ true
    → i < size
covered_within content size [] i parts h = absurd (cc h)
covered_within content size (frame ∷ frames) i ((slice, end, fin), parts) h =
    elim (Bool-cases (covers frame i)) [
      | inl inside ↦ ground (arith, inside, end)
      | inr outside ↦
          covered_within content size frames i parts
            (sym (ap (λ c. c || covered frames i) outside) ∙ h)
    ]

-- All bytes are handed out.
whole-length :
    (content : ℕ → ℕ) (size : ℕ) (frames : List StreamFrame) (output : List ℕ)
    → AreParts content size frames
    → ((i : ℕ) → i < size → covered frames i ≡ true)
    → IsCoveredPrefix content frames output
    → length output ≡ size
whole-length content size frames output parts all front = elim (le-cases size (length output)) [
  | inl enough ↦ elim (le-cases (length output) size) [
    | inl h ↦ omega (arith, enough, h)
    | inr over ↦
        let h =
          covered_within content size frames size parts
            (inside-covered content frames output size front over) in
        absurd (omega (arith, h))
  ]
  | inr short ↦ absurd (cc (all (length output) short, front.1))
]

whole-bytes :
    (content : ℕ → ℕ) (size : ℕ) (frames : List StreamFrame) (output : List ℕ) (i : ℕ)
    → ((i : ℕ) → i < size → covered frames i ≡ true)
    → IsCoveredPrefix content frames output
    → length output ≡ size
    → get_elem? output i ≡ (if ltb i size then some (content i) else none)
whole-bytes content size frames output i all front long =
    front.0 i
    ∙ ap (λ n. if ltb i n && covered frames i then some (content i) else none) long
    ∙ elim (le-cases size i) [
      | inl past ↦ ground (arith, past)
      | inr here ↦ ground (arith, here, all i here)
    ]

-- Frames of a stream of `size` bytes, within the limit and of which some frame has the end of the
-- stream, that cover every byte of it close the receiver, which has handed out the whole stream.
pub run-whole :
    (content : ℕ → ℕ) (size max_data : ℕ) (frames : List StreamFrame)
    → size ≤ max_data
    → size ≤ u64_max
    → AreParts content size frames
    → ((i : ℕ) → i < size → covered frames i ≡ true)
    → any_fin frames ≡ true
    → (closed (run (opened max_data) (map arrived frames)).state ≡ true)
      × (length (run (opened max_data) (map arrived frames)).output ≡ size)
      × ((i : ℕ)
          → get_elem? (run (opened max_data) (map arrived frames)).output i
            ≡ (if ltb i size then some (content i) else none))
unfolding closed
run-whole content size max_data frames limit word parts all ended =
    let t = run (opened max_data) (map arrived frames) in
    let (fine, same, fin) = run-parts content size max_data frames limit word parts in
    let front = parts-IsCoveredPrefix content size max_data frames limit word parts in
    let long = whole-length content size frames t.output parts all front in
    let final = fine.final ∙ ap (λ c. if c then some size else none) (fin ∙ ended) in
    let next =
      fine.reassembles.assembled.counted ∙ ap length (sym fine.reassembles.handed_out) ∙ long in
    let done : (size == size) ≡ true = ground arith in
    (
      ap (λ r. r || is_value t.state.final_size t.state.next_offset) fine.not_reset
          ∙ ap (λ (o : Option ℕ). is_value o t.state.next_offset) final
          ∙ ap (λ n. size == n) next
          ∙ done,
      long,
      λ i. whole-bytes content size frames t.output i all front long,
    )
