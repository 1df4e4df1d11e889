-- ===== src/Stream/SendSet/Scheduled.antt =====
-- `pop_frames`: its bound, and the states it leaves.
use flow_q.Prelude.{ℕ, zero, suc, ◌≤◌, arith, Option, none, some}
use flow_q.Prelude.{List, [], ◌∷◌, length, All, ◌==◌, if_cases}
use flow_q.Frame.{Frame}
use flow_q.Stream.Send.{StreamSendState, StreamSendResult, pop_frame}
use flow_q.Stream.Send.Invariant.{IsSound}
use flow_q.Stream.Send.Popped.{IsPopped, pop_frame-IsPopped}
use flow_q.Stream.SendSet.{
  StreamSendSet, find, store, pop_found, pop_frame_of, blocked_frame_of, scheduled, frame_added,
  pop_frames_in, pop_frames,
}

module _ (P : StreamSendState → Type 0) where
  abbrev pub Each : List (ℕ × StreamSendState) → Type 0
  Each streams = All (λ entry. P entry.1) streams

  pub store-Each :
      (id : ℕ) (s : StreamSendState) (streams : List (ℕ × StreamSendState))
      → P s
      → Each streams
      → Each (store id s streams)
  unfolding store
  store-Each id s [] good all = (good, tt)
  store-Each id s ((key, t) ∷ others) good all =
      if_cases Each (key == id) (λ same. (good, all.1))
        (λ other. (all.0, store-Each id s others good all.1))

  abbrev pub Found : Option StreamSendState → Type 0
  Found none = Unit {0}
  Found (some s) = P s

  pub find-Found :
      (id : ℕ) (streams : List (ℕ × StreamSendState)) → Each streams → Found (find id streams)
  unfolding find
  find-Found id [] all = tt
  find-Found id ((key, t) ∷ others) all =
      if_cases Found (key == id) (λ same. all.0) (λ other. find-Found id others all.1)

popped-IsSound :
    (s : StreamSendState) (most : ℕ) (answer : StreamSendState × Option StreamSendResult)
    → IsPopped s most answer
    → IsSound answer.0
popped-IsSound s most (s', none) sound = sound
popped-IsSound s most (s', some result) (sound, faithful) = sound

pop_found-Each :
    (set : StreamSendSet) (id most : ℕ) (found : Option StreamSendState)
    → Each IsSound set.streams
    → Found IsSound found
    → Each IsSound (pop_found set id most found).0.streams
pop_found-Each set id most none all sound = all
pop_found-Each set id most (some s) all sound =
    store-Each IsSound id (pop_frame s most).0 set.streams
      (popped-IsSound s most (pop_frame s most) (pop_frame-IsPopped s most sound)) all

pop_frame_of-Each :
    (set : StreamSendSet) (id most : ℕ)
    → Each IsSound set.streams
    → Each IsSound (pop_frame_of set id most).0.streams
unfolding pop_frame_of
pop_frame_of-Each set id most all =
    pop_found-Each set id most (find id set.streams) all (find-Found IsSound id set.streams all)

abbrev pub IsSchedule : ℕ → StreamSendSet × List Frame → Type 0
IsSchedule room (set, frames) = (length frames ≤ room) × Each IsSound set.streams

frame_added-IsSchedule :
    (room : ℕ) (frame : Option Frame) (skipped later : StreamSendSet × List Frame)
    → IsSchedule (suc room) skipped
    → IsSchedule room later
    → IsSchedule (suc room) (frame_added frame skipped later)
frame_added-IsSchedule room none skipped later without behind = without
frame_added-IsSchedule room (some f) skipped (last, frames) without (few, sound) =
    (omega (arith, few), sound)

pop_frames_in-IsSchedule :
    (set : StreamSendSet) (ids : List ℕ) (room most : ℕ)
    → Each IsSound set.streams
    → IsSchedule room (pop_frames_in set ids room most)
unfolding pop_frames_in
pop_frames_in-IsSchedule set [] room most all = (omega arith, all)
pop_frames_in-IsSchedule set (id ∷ ids) zero most all = (omega arith, all)
pop_frames_in-IsSchedule set (id ∷ ids) (suc room) most all =
    let set' = (pop_frame_of set id most).0 in
    let sound = pop_frame_of-Each set id most all in
    frame_added-IsSchedule room (scheduled (pop_frame_of set id most).1 (blocked_frame_of set' id))
      (pop_frames_in set' ids (suc room) most) (pop_frames_in set' ids room most)
      (pop_frames_in-IsSchedule set' ids (suc room) most sound)
      (pop_frames_in-IsSchedule set' ids room most sound)

-- `pop_frames` hands out at most `max_frames` frames, and leaves every stream of the set sound.
pub pop_frames-IsSchedule :
    (set : StreamSendSet) (ids : List ℕ) (max_frames most : ℕ)
    → Each IsSound set.streams
    → IsSchedule max_frames (pop_frames set ids max_frames most)
unfolding pop_frames
pop_frames-IsSchedule set ids max_frames most all =
    if_cases (IsSchedule max_frames) (max_frames == 0) (λ no_room. (omega arith, all))
      (λ room. pop_frames_in-IsSchedule set ids max_frames most all)
