-- ===== src/KeyLifecycle.antt =====
-- `key_lifecycle_state` of include/flowq/quic/key_lifecycle.hpp: which keys are available, and which
-- packet number spaces are discarded.
pub mod Traced
mod Examples
use flow_q.Prelude.{Bool, true, false, if◌then◌else◌}
use flow_q.AckLoss.{PacketNumberSpace, initial, handshake, application}

pub data EncryptionLevel : Type 0 where
  initial_level handshake_level zero_rtt one_rtt : EncryptionLevel

pub data KeyDirection : Type 0 where
  send receive : KeyDirection

pub record KeyAvailabilityEvent : Type 0 where
  pub level : EncryptionLevel
  pub direction : KeyDirection

pub record DirectionalKeyAvailability : Type 0 where
  pub can_send : Bool
  pub can_receive : Bool

-- `tls_key_availability` of tls_handshake.hpp.
pub record TlsKeyAvailability : Type 0 where
  pub initial_keys : Bool
  pub handshake_keys : Bool
  pub application_keys : Bool

pub record KeyLifecycleState : Type 0 where
  pub initial_availability : DirectionalKeyAvailability
  pub handshake_availability : DirectionalKeyAvailability
  pub zero_rtt_availability : DirectionalKeyAvailability
  pub one_rtt_availability : DirectionalKeyAvailability
  pub initial_discarded : Bool
  pub handshake_discarded : Bool
  pub application_discarded : Bool

abbrev pub no_keys : DirectionalKeyAvailability
no_keys = record { can_send = false; can_receive = false }

unfoldable pub fresh_lifecycle : KeyLifecycleState
fresh_lifecycle = record {
  initial_availability = no_keys;
  handshake_availability = no_keys;
  zero_rtt_availability = no_keys;
  one_rtt_availability = no_keys;
  initial_discarded = false;
  handshake_discarded = false;
  application_discarded = false;
}

unfoldable pub availability_for : KeyLifecycleState → EncryptionLevel → DirectionalKeyAvailability
availability_for s initial_level = s.initial_availability
availability_for s handshake_level = s.handshake_availability
availability_for s zero_rtt = s.zero_rtt_availability
availability_for s one_rtt = s.one_rtt_availability

-- An assignment through the reference of `availability_for`.
unfoldable pub set_availability :
    KeyLifecycleState → EncryptionLevel → DirectionalKeyAvailability → KeyLifecycleState
set_availability s initial_level a = record s { initial_availability = a }
set_availability s handshake_level a = record s { handshake_availability = a }
set_availability s zero_rtt a = record s { zero_rtt_availability = a }
set_availability s one_rtt a = record s { one_rtt_availability = a }

abbrev pub with_direction : DirectionalKeyAvailability → KeyDirection → DirectionalKeyAvailability
with_direction a send = record a { can_send = true }
with_direction a receive = record a { can_receive = true }

abbrev pub in_direction : DirectionalKeyAvailability → KeyDirection → Bool
in_direction a send = a.can_send
in_direction a receive = a.can_receive

unfoldable pub install : KeyLifecycleState → KeyAvailabilityEvent → KeyLifecycleState
install s event =
    set_availability s event.level (with_direction (availability_for s event.level) event.direction)

unfoldable pub available : KeyLifecycleState → EncryptionLevel → KeyDirection → Bool
available s level direction = in_direction (availability_for s level) direction

unfoldable pub install_both : KeyLifecycleState → EncryptionLevel → KeyLifecycleState
install_both s level =
    install (install s (record { level = level; direction = send }))
      (record { level = level; direction = receive })

unfoldable pub discard : KeyLifecycleState → PacketNumberSpace → KeyLifecycleState
discard s initial = record s { initial_discarded = true }
discard s handshake = record s { handshake_discarded = true }
discard s application = record s { application_discarded = true }

unfoldable pub discarded : KeyLifecycleState → PacketNumberSpace → Bool
discarded s initial = s.initial_discarded
discarded s handshake = s.handshake_discarded
discarded s application = s.application_discarded

-- The handshake state is an argument that the source does not read.
unfoldable pub observe_tls : KeyLifecycleState → TlsKeyAvailability → KeyLifecycleState
observe_tls s keys =
    let s₁ = if keys.initial_keys then install_both s initial_level else s in
    let s₂ =
      if keys.handshake_keys then discard (install_both s₁ handshake_level) initial else s₁ in
    if keys.application_keys then install_both s₂ one_rtt else s₂
