-- ===== src/ZeroRtt/Replay.antt =====
-- The window accepts a packet number once.
use flow_q.Prelude.{
  ℕ, zero, suc, ◌-◌, ◌%◌, ◌≤◌, ◌<◌, ◌≡◌, ◌∙◌, ap, sym, refl, arith, inl, inr, le-cases, Bool, true,
  false,
}
use flow_q.Prelude.{
  List, [], ◌∷◌, length, length-replicate, get_or, replicate, ltb, leb, ◌==◌, if◌then◌else◌,
  if_cases,
}
use flow_q.ZeroRtt.{ReplayProtection, fresh_replay_protection, set_bit, moved, check_and_record}
use flow_q.ZeroRtt.Bitmap.{length-set_bit, get_or-replicate}
use flow_q.ZeroRtt.Window.{
  is_fresh, History, offer, offer_all, Tracks, has_number_past, marked, moved-bits, length-moved,
}

-- No window, no packet yet, or a bitmap.
data Knows : ReplayProtection → List ℕ → Type 0 where
  idle : (s : ReplayProtection) → s.window_size ≡ 0 → Knows s []
  unused :
      (s : ReplayProtection) → 0 < s.window_size → s.bitmap ≡ [] → s.largest_seen ≡ 0 → Knows s []
  used : (s : ReplayProtection) (seen : List ℕ) → Tracks s seen → Knows s seen

-- One call: its answer, and the numbers known behind it.
abbrev IsStep : ReplayProtection → List ℕ → ℕ → ReplayProtection × Bool → Type 0
IsStep s seen n d =
    (d.1 ≡ is_fresh s.window_size seen n)
    × (d.0.window_size ≡ s.window_size)
    × Knows d.0 (if d.1 then n ∷ seen else seen)

-- The first packet.
first-Tracks :
    (s : ReplayProtection) (n : ℕ)
    → 0 < s.window_size
    → Tracks
        (record s {
          largest_seen = n;
          bitmap = set_bit (replicate s.window_size false) (n % s.window_size) true;
        })
        (n ∷ [])
first-Tracks s n filled =
    let w = s.window_size in
    record {
      filled = filled;
      sized = length-set_bit (replicate w false) (n % w) true ∙ length-replicate w false;
      newest = omega arith;
      bits = λ m below near.
          marked w (replicate w false) [] n m filled (length-replicate w false) near
            (omega (arith, below, filled)) (λ other. get_or-replicate w (m % w));
    }

-- A packet past all others.
moved-Tracks :
    (s : ReplayProtection) (seen : List ℕ) (n : ℕ)
    → Tracks s seen
    → s.largest_seen < n
    → Tracks
        (record s { largest_seen = n; bitmap = set_bit (moved s n) (n % s.window_size) true })
        (n ∷ seen)
moved-Tracks s seen n tracks up =
    let w = s.window_size in
    record {
      filled = tracks.filled;
      sized = length-set_bit (moved s n) (n % w) true ∙ length-moved s n ∙ tracks.sized;
      newest = omega (arith, up, tracks.newest);
      bits = λ m below near.
          marked w (moved s n) seen n m tracks.filled (length-moved s n ∙ tracks.sized) near
            (omega (arith, below, tracks.filled))
            (λ other. elim (le-cases n m) [
              | inl above ↦ absurd (other (omega (arith, above, below)))
              | inr less ↦ moved-bits s seen n m tracks up less near
            ]);
    }

-- A packet inside the window.
marked-Tracks :
    (s : ReplayProtection) (seen : List ℕ) (n : ℕ)
    → Tracks s seen
    → n ≤ s.largest_seen
    → s.largest_seen - n < s.window_size
    → Tracks (record s { bitmap = set_bit s.bitmap (n % s.window_size) true }) (n ∷ seen)
marked-Tracks s seen n tracks inside near =
    let w = s.window_size in
    record {
      filled = tracks.filled;
      sized = length-set_bit s.bitmap (n % w) true ∙ tracks.sized;
      newest = omega (arith, inside, tracks.newest);
      bits = λ m below near'.
          marked w s.bitmap seen n m tracks.filled tracks.sized
            (omega (arith, inside, near, near', below)) (omega (arith, inside, near, near', below))
            (λ other. tracks.bits m below near');
    }

used-IsStep :
    (s : ReplayProtection) (seen : List ℕ) (n : ℕ)
    → Tracks s seen
    → IsStep s seen n (check_and_record s n)
unfolding check_and_record
used-IsStep s seen n tracks =
    let w = s.window_size in
    let P = IsStep s seen n in
    let known : Knows s seen = used s seen tracks in
    if_cases P (w == 0) (λ no_window. absurd (ground (arith, no_window, tracks.filled)))
      (λ wide.
        if_cases P (length s.bitmap == 0)
          (λ empty. absurd (ground (arith, empty, tracks.filled, tracks.sized)))
          (λ there.
            if_cases P (ltb s.largest_seen n)
              (λ up.
                let past = has_number_past seen n (ground (arith, up, tracks.newest)) in
                (
                  ground (arith, up, past, wide, tracks.newest),
                  refl,
                  used _ (n ∷ seen) (moved-Tracks s seen n tracks (ground (arith, up))),
                ))
              (λ in_window.
                if_cases P (leb w (s.largest_seen - n))
                  (λ old. (ground (arith, old, in_window, wide, tracks.newest), refl, known))
                  (λ near.
                    let inside : n ≤ s.largest_seen = ground (arith, in_window) in
                    let close : s.largest_seen - n < w = ground (arith, near) in
                    let bit = tracks.bits n inside close in
                    if_cases P (get_or s.bitmap (n % w) false)
                      (λ taken. (ground (arith, sym bit ∙ taken), refl, known))
                      (λ clear. (
                        ground (arith, sym bit ∙ clear, wide, close, inside, tracks.newest),
                        refl,
                        used _ (n ∷ seen) (marked-Tracks s seen n tracks inside close),
                      ))))))

unused-IsStep :
    (s : ReplayProtection) (n : ℕ)
    → 0 < s.window_size
    → s.bitmap ≡ []
    → IsStep s [] n (check_and_record s n)
unfolding check_and_record
unused-IsStep s n filled empty =
    let P = IsStep s [] n in
    if_cases P (s.window_size == 0) (λ no_window. absurd (ground (arith, no_window, filled)))
      (λ wide.
        if_cases P (length s.bitmap == 0)
          (λ first. (ground (arith, wide, filled), refl, used _ (n ∷ []) (first-Tracks s n filled)))
          (λ there. absurd (ground (arith, there, ap length empty))))

idle-IsStep :
    (s : ReplayProtection) (n : ℕ) → s.window_size ≡ 0 → IsStep s [] n (check_and_record s n)
unfolding check_and_record
idle-IsStep s n no_window =
    if_cases (IsStep s [] n) (s.window_size == 0)
      (λ h. (ground (arith, no_window), refl, idle s no_window))
      (λ wide. absurd (ground (arith, wide, no_window)))

step :
    (s : ReplayProtection) (seen : List ℕ) (n : ℕ)
    → Knows s seen
    → IsStep s seen n (check_and_record s n)
step s [] n (idle _ no_window) = idle-IsStep s n no_window
step s [] n (unused _ filled empty first) = unused-IsStep s n filled empty
step s seen n (used _ _ tracks) = used-IsStep s seen n tracks

offer_all-Knows :
    (h : History) (packets : List ℕ)
    → Knows h.0 h.1
    → Knows (offer_all h packets).0 (offer_all h packets).1
      × ((offer_all h packets).0.window_size ≡ h.0.window_size)
unfolding offer_all offer
offer_all-Knows h [] knows = (knows, refl)
offer_all-Knows (s, seen) (n ∷ packets) knows =
    let (answer, same, next) = step s seen n knows in
    let (last, kept) = offer_all-Knows (offer (s, seen) n) packets next in (last, kept ∙ same)

fresh-Knows : (w : ℕ) → Knows (fresh_replay_protection w) []
unfolding fresh_replay_protection
fresh-Knows zero = idle _ refl
fresh-Knows (suc w) = unused _ (omega arith) refl refl

-- After any packets, a packet number is accepted exactly when the window is not empty, the number was
-- not accepted before, and it is less than a window below the greatest one accepted.
pub check_and_record-is_fresh :
    (window : ℕ) (packets : List ℕ) (n : ℕ)
    → (check_and_record (offer_all (fresh_replay_protection window, []) packets).0 n).1
      ≡ is_fresh window (offer_all (fresh_replay_protection window, []) packets).1 n
unfolding fresh_replay_protection
check_and_record-is_fresh window packets n =
    let h : History = offer_all (fresh_replay_protection window, []) packets in
    let (knows, same) =
      offer_all-Knows (fresh_replay_protection window, []) packets (fresh-Knows window) in
    (step h.0 h.1 n knows).0 ∙ ap (λ w. is_fresh w h.1 n) same
