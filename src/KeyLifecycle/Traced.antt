-- ===== src/KeyLifecycle/Traced.antt =====
-- The state against a log of the calls.
use flow_q.Prelude.{
  ◌≡◌, refl, arith, Bool, true, false, ◌&&◌, ◌||◌, if◌then◌else◌, List, [], ◌∷◌, ap, ◌∙◌,
}
use flow_q.AckLoss.{PacketNumberSpace, initial, handshake, application}
use flow_q.KeyLifecycle.{
  EncryptionLevel, initial_level, handshake_level, zero_rtt, one_rtt, KeyDirection, send, receive,
  DirectionalKeyAvailability, TlsKeyAvailability, KeyLifecycleState, fresh_lifecycle,
  availability_for, set_availability, with_direction, in_direction, install, available,
  install_both, discard, observe_tls,
}

abbrev pub same_level : EncryptionLevel → EncryptionLevel → Bool
same_level initial_level initial_level = true
same_level handshake_level handshake_level = true
same_level zero_rtt zero_rtt = true
same_level one_rtt one_rtt = true
same_level _ _ = false

abbrev pub same_direction : KeyDirection → KeyDirection → Bool
same_direction send send = true
same_direction receive receive = true
same_direction _ _ = false

direction_lem :
    (a : DirectionalKeyAvailability) (direction queried : KeyDirection)
    → in_direction (with_direction a direction) queried
      ≡ (same_direction direction queried || in_direction a queried)
direction_lem a send send = refl
direction_lem a send receive = refl
direction_lem a receive send = refl
direction_lem a receive receive = refl

available-install :
    (s : KeyLifecycleState) (changed level : EncryptionLevel) (direction queried : KeyDirection)
    → available (install s (record { level = changed; direction = direction })) level queried ≡ (
        (same_level changed level && same_direction direction queried) || available s level queried)
unfolding available install availability_for set_availability
available-install s initial_level initial_level direction queried =
    direction_lem (availability_for s initial_level) direction queried
available-install s initial_level handshake_level direction queried = refl
available-install s initial_level zero_rtt direction queried = refl
available-install s initial_level one_rtt direction queried = refl
available-install s handshake_level initial_level direction queried = refl
available-install s handshake_level handshake_level direction queried =
    direction_lem (availability_for s handshake_level) direction queried
available-install s handshake_level zero_rtt direction queried = refl
available-install s handshake_level one_rtt direction queried = refl
available-install s zero_rtt initial_level direction queried = refl
available-install s zero_rtt handshake_level direction queried = refl
available-install s zero_rtt zero_rtt direction queried =
    direction_lem (availability_for s zero_rtt) direction queried
available-install s zero_rtt one_rtt direction queried = refl
available-install s one_rtt initial_level direction queried = refl
available-install s one_rtt handshake_level direction queried = refl
available-install s one_rtt zero_rtt direction queried = refl
available-install s one_rtt one_rtt direction queried =
    direction_lem (availability_for s one_rtt) direction queried

either_direction :
    (direction : KeyDirection)
    → (same_direction receive direction || same_direction send direction) ≡ true
either_direction send = refl
either_direction receive = refl

available-install_both :
    (s : KeyLifecycleState) (changed level : EncryptionLevel) (queried : KeyDirection)
    → available (install_both s changed) level queried
      ≡ (same_level changed level || available s level queried)
unfolding install_both
available-install_both s changed level queried =
    let sending : KeyLifecycleState = install s (record { level = changed; direction = send }) in
    ground (
      arith,
      available-install sending changed level receive queried,
      available-install s changed level send queried,
      either_direction queried,
    )

available-offered :
    (s : KeyLifecycleState) (offered : Bool) (changed level : EncryptionLevel)
    (queried : KeyDirection)
    → available (if offered then install_both s changed else s) level queried
      ≡ ((offered && same_level changed level) || available s level queried)
available-offered s true changed level queried = available-install_both s changed level queried
available-offered s false changed level queried = refl

available-discard :
    (s : KeyLifecycleState) (space : PacketNumberSpace) (level : EncryptionLevel)
    (queried : KeyDirection)
    → available (discard s space) level queried ≡ available s level queried
unfolding available discard availability_for
available-discard s initial initial_level queried = refl
available-discard s initial handshake_level queried = refl
available-discard s initial zero_rtt queried = refl
available-discard s initial one_rtt queried = refl
available-discard s handshake initial_level queried = refl
available-discard s handshake handshake_level queried = refl
available-discard s handshake zero_rtt queried = refl
available-discard s handshake one_rtt queried = refl
available-discard s application initial_level queried = refl
available-discard s application handshake_level queried = refl
available-discard s application zero_rtt queried = refl
available-discard s application one_rtt queried = refl

available-handshake :
    (s : KeyLifecycleState) (offered : Bool) (level : EncryptionLevel) (queried : KeyDirection)
    → available
        (if offered then discard (install_both s handshake_level) initial else s)
        level
        queried
      ≡ ((offered && same_level handshake_level level) || available s level queried)
available-handshake s true level queried =
    available-discard (install_both s handshake_level) initial level queried
    ∙ available-install_both s handshake_level level queried
available-handshake s false level queried = refl

-- The calls, and what each says of a key.
pub data Call : Type 0 where
  installed : EncryptionLevel → KeyDirection → Call
  observed : TlsKeyAvailability → Call
  dropped : PacketNumberSpace → Call

abbrev pub offered : TlsKeyAvailability → EncryptionLevel → Bool
offered keys initial_level = keys.initial_keys
offered keys handshake_level = keys.handshake_keys
offered keys zero_rtt = false
offered keys one_rtt = keys.application_keys

abbrev pub brings : EncryptionLevel → KeyDirection → Call → Bool
brings level direction (installed l d) = same_level l level && same_direction d direction
brings level direction (observed keys) = offered keys level
brings level direction (dropped space) = false

abbrev pub answer : KeyLifecycleState → Call → KeyLifecycleState
answer s (installed level direction) = install s (record { level = level; direction = direction })
answer s (observed keys) = observe_tls s keys
answer s (dropped space) = discard s space

-- The calls of a log, the latest first.
abbrev pub answer_all : List Call → KeyLifecycleState
answer_all [] = fresh_lifecycle
answer_all (call ∷ before) = answer (answer_all before) call

abbrev pub any : (Call → Bool) → List Call → Bool
any test [] = false
any test (call ∷ calls) = test call || any test calls

offered_lem :
    (keys : TlsKeyAvailability) (level : EncryptionLevel) (known : Bool)
    → ((keys.application_keys && same_level one_rtt level)
        || ((keys.handshake_keys && same_level handshake_level level)
            || ((keys.initial_keys && same_level initial_level level) || known)))
      ≡ (offered keys level || known)
offered_lem keys initial_level known = ground arith
offered_lem keys handshake_level known = ground arith
offered_lem keys zero_rtt known = ground arith
offered_lem keys one_rtt known = ground arith

available-observe_tls :
    (s : KeyLifecycleState) (keys : TlsKeyAvailability) (level : EncryptionLevel)
    (queried : KeyDirection)
    → available (observe_tls s keys) level queried
      ≡ (offered keys level || available s level queried)
unfolding observe_tls
available-observe_tls s keys level queried =
    let s₁ : KeyLifecycleState = if keys.initial_keys then install_both s initial_level else s in
    let s₂ : KeyLifecycleState =
      if keys.handshake_keys then discard (install_both s₁ handshake_level) initial else s₁ in
    available-offered s₂ keys.application_keys one_rtt level queried
    ∙ ap (λ known. (keys.application_keys && same_level one_rtt level) || known)
        (available-handshake s₁ keys.handshake_keys level queried
          ∙ ap (λ known. (keys.handshake_keys && same_level handshake_level level) || known)
              (available-offered s keys.initial_keys initial_level level queried))
    ∙ offered_lem keys level (available s level queried)

available-answer :
    (s : KeyLifecycleState) (call : Call) (level : EncryptionLevel) (queried : KeyDirection)
    → available (answer s call) level queried
      ≡ (brings level queried call || available s level queried)
available-answer s (installed l d) level queried = available-install s l level d queried
available-answer s (observed keys) level queried = available-observe_tls s keys level queried
available-answer s (dropped space) level queried = available-discard s space level queried

available-fresh :
    (level : EncryptionLevel) (queried : KeyDirection)
    → available fresh_lifecycle level queried ≡ false
unfolding available fresh_lifecycle availability_for
available-fresh initial_level send = refl
available-fresh initial_level receive = refl
available-fresh handshake_level send = refl
available-fresh handshake_level receive = refl
available-fresh zero_rtt send = refl
available-fresh zero_rtt receive = refl
available-fresh one_rtt send = refl
available-fresh one_rtt receive = refl

-- After any calls, a key is available exactly if some call brought it: it was installed at that
-- level in that direction, or the TLS handshake reported keys of that level. Nothing else makes it
-- available, and no discard of a packet number space takes it away.
pub available-answer_all :
    (calls : List Call) (level : EncryptionLevel) (direction : KeyDirection)
    → available (answer_all calls) level direction ≡ any (brings level direction) calls
available-answer_all [] level direction = available-fresh level direction
available-answer_all (call ∷ before) level direction =
    available-answer (answer_all before) call level direction
    ∙ ap (λ known. brings level direction call || known)
        (available-answer_all before level direction)
