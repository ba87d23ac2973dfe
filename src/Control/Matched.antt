-- ===== src/Control/Matched.antt =====
-- No handler parts the LED and the state.
use tailscale_iot.Base.{ℕ, ◌≡◌, ◌⊎◌, refl, subst, true, false, ◌==◌, arith, if◌then◌else◌}
use tailscale_iot.Led.{set_state, set_color}
use tailscale_iot.Led.Shown.{IsShown, set_state-IsShown}
use tailscale_iot.Control.{
  TailscaleState, idle, error, initializing, registering, registered, fetching_map, connected,
  Control, Turn, led_state, transition_to, handle_idle, handle_initializing, perform_registration,
  handle_registering, handle_fetching_map, watch_transport, watch_server, check_server_keepalive,
  handle_error, process_state, ensure_ready, fetch_map,
}

-- The LED shows its colour, and where it is initialised its state is that of the machine.
pub record IsMatched (c : Control) : Type 0 where
  pub shown : IsShown c.led
  pub state : (c.led.initialized ≡ false) ⊎ (c.led.state ≡ led_state c.state)

pub transition_to-IsMatched :
    (s : TailscaleState) (now : ℕ) (c : Control) → IsMatched c → IsMatched (transition_to s now c)
unfolding transition_to set_state set_color
transition_to-IsMatched s now c h =
    ground (arith, h.state, set_state-IsShown (led_state s) c.led h.shown)

-- What leaves the LED and the state leaves them matched.
IsMatched-kept : (c d : Control) → d.led ≡ c.led → d.state ≡ c.state → IsMatched c → IsMatched d
IsMatched-kept c d e f h = ground (arith, e, f, h.shown, h.state)

handle_initializing-IsMatched :
    (t : Turn) (c : Control) → IsMatched c → IsMatched (handle_initializing t c)
unfolding handle_initializing
handle_initializing-IsMatched t c h =
    let fresh = record c { handshake_complete = false; channel = true } in
    ground (
      arith,
      transition_to-IsMatched registering t.later fresh (IsMatched-kept c fresh refl refl h),
      transition_to-IsMatched error t.later c h,
    )

perform_registration-IsMatched :
    (t : Turn) (c : Control) → IsMatched c → IsMatched (perform_registration t c).0
unfolding perform_registration
perform_registration-IsMatched t c h =
    let d = (ensure_ready t c).0 in
    let lost = record d { handshake_complete = false } in
    ground (
      arith,
      IsMatched-kept c d refl refl h,
      IsMatched-kept c lost refl refl h,
      transition_to-IsMatched error t.later lost (IsMatched-kept c lost refl refl h),
    )

handle_registering-IsMatched :
    (t : Turn) (c : Control) → IsMatched c → IsMatched (handle_registering t c)
unfolding handle_registering
handle_registering-IsMatched t c h =
    let d = (perform_registration t c).0 in
    let matched = perform_registration-IsMatched t c h in
    ground (
      arith,
      transition_to-IsMatched fetching_map t.later d matched,
      transition_to-IsMatched error t.later d matched,
    )

handle_fetching_map-IsMatched :
    (t : Turn) (c : Control) → IsMatched c → IsMatched (handle_fetching_map t c)
unfolding handle_fetching_map
handle_fetching_map-IsMatched t c h =
    let d = (fetch_map t c).0 in
    let matched = IsMatched-kept c d refl refl h in
    let there = transition_to connected t.later d in
    let arrived = transition_to-IsMatched connected t.later d matched in
    ground (
      arith,
      IsMatched-kept there (record there { retry_count = 0 }) refl refl arrived,
      transition_to-IsMatched error t.later d matched,
    )

watch_transport-IsMatched : (t : Turn) (c : Control) → IsMatched c → IsMatched (watch_transport t c)
unfolding watch_transport
watch_transport-IsMatched t c h =
    let gone = record c {
      not_ready_since = 0;
      last_server_message_time = 0;
      handshake_complete = false;
      channel = false;
    } in
    let since = if c.not_ready_since == 0 then t.now else c.not_ready_since in
    let waiting = record c { not_ready_since = since } in
    ground (
      arith,
      transition_to-IsMatched registering t.later gone (IsMatched-kept c gone refl refl h),
      IsMatched-kept c waiting refl refl h,
    )

watch_server-kept :
    (t : Turn) (c : Control)
    → ((watch_server t c).led ≡ c.led) × ((watch_server t c).state ≡ c.state)
unfolding watch_server
watch_server-kept t c = ground arith

check_server_keepalive-IsMatched :
    (t : Turn) (c : Control) → IsMatched c → IsMatched (check_server_keepalive t c)
unfolding check_server_keepalive
check_server_keepalive-IsMatched t c h =
    let (led, state) = watch_server-kept t c in
    ground (arith, watch_transport-IsMatched t c h, IsMatched-kept c (watch_server t c) led state h)

handle_idle-IsMatched : (t : Turn) (c : Control) → IsMatched c → IsMatched (handle_idle t c)
unfolding handle_idle
handle_idle-IsMatched t c h = ground (arith, h, transition_to-IsMatched initializing t.now c h)

handle_error-IsMatched : (t : Turn) (c : Control) → IsMatched c → IsMatched (handle_error t c)
unfolding handle_error
handle_error-IsMatched t c h =
    let again = record c { retry_count = 0 } in
    ground (
      arith,
      h,
      transition_to-IsMatched initializing t.later again (IsMatched-kept c again refl refl h),
    )

-- The pass in the state `s`.
pub process_state-IsMatched :
    (s : TailscaleState) (t : Turn) (c : Control)
    → c.state ≡ s
    → IsMatched c
    → IsMatched (process_state t c)
unfolding process_state
process_state-IsMatched idle t c e h =
    subst IsMatched {x = handle_idle t c} (ground (arith, e)) (handle_idle-IsMatched t c h)
process_state-IsMatched initializing t c e h =
    subst IsMatched {x = handle_initializing t c} (ground (arith, e))
      (handle_initializing-IsMatched t c h)
process_state-IsMatched registering t c e h =
    subst IsMatched {x = handle_registering t c} (ground (arith, e))
      (handle_registering-IsMatched t c h)
process_state-IsMatched registered t c e h = subst IsMatched {x = c} (ground (arith, e)) h
process_state-IsMatched fetching_map t c e h =
    subst IsMatched {x = handle_fetching_map t c} (ground (arith, e))
      (handle_fetching_map-IsMatched t c h)
process_state-IsMatched connected t c e h =
    subst IsMatched {x = check_server_keepalive t c} (ground (arith, e))
      (check_server_keepalive-IsMatched t c h)
process_state-IsMatched error t c e h =
    subst IsMatched {x = handle_error t c} (ground (arith, e)) (handle_error-IsMatched t c h)
