-- ===== src/KeyLifecycle/Examples.antt =====
-- A run of the key lifecycle, and its theorem at concrete inputs.
use flow_q.Prelude.{◌≡◌, refl, true, false, List, [], ◌∷◌}
use flow_q.AckLoss.{initial}
use flow_q.KeyLifecycle.{
  handshake_level, zero_rtt, receive, send, fresh_lifecycle, set_availability, install, available,
  install_both, discard, discarded, observe_tls,
}
use flow_q.KeyLifecycle.Traced.{Call, installed, observed, answer_all, available-answer_all}

abbrev calls : List Call
calls =
    observed (record { initial_keys = true; handshake_keys = true; application_keys = false })
    ∷ installed zero_rtt send
    ∷ []

initial_dropped : discarded (answer_all calls) initial ≡ true
unfolding fresh_lifecycle install install_both discard discarded observe_tls set_availability
initial_dropped = refl

available-answer_all_example : available (answer_all calls) handshake_level receive ≡ true
available-answer_all_example = available-answer_all calls handshake_level receive
