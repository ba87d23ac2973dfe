-- ===== src/Control/Recovery.antt =====
-- How the component comes back to "connected".
use tailscale_iot.Base.{◌<◌, ◌≡◌, ◌⊎◌, true, false, arith}
use tailscale_iot.Led.{elapsed}
use tailscale_iot.Control.{
  idle, error, initializing, registering, fetching_map, connected, accepted, Control, Turn,
  transition_to, handle_idle, handle_initializing, perform_registration, handle_registering,
  handle_fetching_map, handle_error, process_state, loop,
}

-- A pass in which everything that is asked for succeeds.
pub record IsGood (t : Turn) : Type 0 where
  pub network : t.network ≡ true
  pub noise_ok : t.noise_ok ≡ true
  pub ready_ok : t.ready_ok ≡ true
  pub registration : t.registration ≡ accepted
  pub map_ok : t.map_ok ≡ true
  pub device_ok : t.device_ok ≡ true
  pub lost : t.lost ≡ false

-- The time for another try.
abbrev pub IsDue : Turn → Control → Type 0
IsDue t c = (c.state ≡ idle) ⊎ ((c.state ≡ error) × (5000 < elapsed t.now c.last_update_time))

loop_due : (t : Turn) (c : Control) → IsGood t → IsDue t c → (loop t c).state ≡ initializing
unfolding loop process_state handle_idle handle_error transition_to
loop_due t c g h = ground (arith, g.network, h)

loop_initializing :
    (t : Turn) (c : Control)
    → IsGood t
    → c.state ≡ initializing
    → ((loop t c).state ≡ registering) × ((loop t c).channel ≡ true)
unfolding loop process_state handle_initializing transition_to
loop_initializing t c g e = ground (arith, g.noise_ok, e)

loop_registering :
    (t : Turn) (c : Control)
    → IsGood t
    → c.state ≡ registering
    → c.channel ≡ true
    → ((loop t c).state ≡ fetching_map) × ((loop t c).handshake_complete ≡ true)
unfolding loop process_state handle_registering perform_registration transition_to
loop_registering t c g e h = ground (arith, g.ready_ok, g.registration, e, h)

loop_fetching_map :
    (t : Turn) (c : Control)
    → IsGood t
    → c.state ≡ fetching_map
    → c.handshake_complete ≡ true
    → ((loop t c).state ≡ connected) × ((loop t c).handshake_complete ≡ true)
unfolding loop process_state handle_fetching_map transition_to
loop_fetching_map t c g e h = ground (arith, g.map_ok, g.device_ok, g.lost, e, h)

-- From the idle state, or from an error that is more than five seconds old, four passes in which
-- everything that is asked for succeeds lead to the connected state, with the handshake done.
pub loop-connects :
    (t₁ t₂ t₃ t₄ : Turn) (c : Control)
    → IsGood t₁
    → IsGood t₂
    → IsGood t₃
    → IsGood t₄
    → IsDue t₁ c
    → ((loop t₄ (loop t₃ (loop t₂ (loop t₁ c)))).state ≡ connected)
      × ((loop t₄ (loop t₃ (loop t₂ (loop t₁ c)))).handshake_complete ≡ true)
loop-connects t₁ t₂ t₃ t₄ c g₁ g₂ g₃ g₄ h =
    let (e, channel) = loop_initializing t₂ (loop t₁ c) g₂ (loop_due t₁ c g₁ h) in
    let (f, handshake) = loop_registering t₃ (loop t₂ (loop t₁ c)) g₃ e channel in
    loop_fetching_map t₄ (loop t₃ (loop t₂ (loop t₁ c))) g₄ f handshake
