-- ===== src/Control/Tests.antt =====
-- Runs of the state machine, and the theorems at concrete inputs.
use tailscale_iot.Base.{[], ℕ, if◌then◌else◌, ◌≡◌, refl, inr, [], true, false, arith}
use tailscale_iot.Led.{
  LedState, BlinkType, LedStatus, rgb, state_colour, blink_colour, set_color, initialize, set_state,
  update,
}
use tailscale_iot.Control.{
  idle, connected, error, accepted, Control, Turn, led_state, setup, set_up_led, loop,
  process_state, handle_initializing, transition_to,
}
use tailscale_iot.Control.Colours.{IsNew, Reach, Reach-colour}
use tailscale_iot.Control.Recovery.{IsGood, loop-connects}

abbrev dark : LedStatus
dark = record {
  state = LedState.off;
  initialized = false;
  blinking = false;
  blink_type = BlinkType.control;
  blink_start_time = 0;
  shown = rgb 0 0 0;
  results = [];
}

abbrev start : Control
start = record {
  state = idle;
  last_update_time = 0;
  retry_count = 0;
  led = dark;
  handshake_complete = false;
  channel = false;
  last_server_message_time = 0;
  not_ready_since = 0;
  data_available = false;
}

abbrev good : ℕ → Turn
good now = record {
  now = now;
  later = now;
  lost = false;
  arrived = false;
  network = true;
  noise_ok = true;
  ready_ok = true;
  registration = accepted;
  map_ok = true;
  device_ok = true;
  direct_path = false;
  message = false;
}

good-IsGood : (now : ℕ) → IsGood (good now)
good-IsGood now = record {
  network = refl;
  noise_ok = refl;
  ready_ok = refl;
  registration = refl;
  map_ok = refl;
  device_ok = refl;
  lost = refl;
}

-- The LED is on, and the first pass fails.
abbrev failed : Control
failed = loop (record (good 100) { noise_ok = false }) (setup true true 50 start)

failed_run : failed.led.initialized ≡ true
unfolding setup set_up_led initialize set_color set_state loop update process_state
    handle_initializing transition_to
failed_run = refl

failed_state : (failed.state ≡ error) × (failed.led.blinking ≡ false)
unfolding setup set_up_led initialize set_color set_state loop update process_state
    handle_initializing transition_to
failed_state = (refl, refl)

start-IsNew : IsNew start
start-IsNew = record { state = refl; led = refl; dark = refl; quiet = refl; results = refl }

Reach-colour_example : failed.led.shown ≡ (
    if failed.led.blinking
    then blink_colour failed.led.blink_type
    else state_colour (led_state failed.state))
Reach-colour_example =
    Reach-colour start failed start-IsNew
      (Reach.pass (record (good 100) { noise_ok = false }) (Reach.set_up true true 50)) failed_run

abbrev broken : Control
broken = record start { state = error; last_update_time = 1000 }

loop-connects_example :
    ((loop (good 6400) (loop (good 6300) (loop (good 6200) (loop (good 6100) broken)))).state
      ≡ connected)
    × ((loop
          (good 6400)
          (loop (good 6300) (loop (good 6200) (loop (good 6100) broken)))).handshake_complete
        ≡ true)
loop-connects_example =
    loop-connects (good 6100) (good 6200) (good 6300) (good 6400) broken (good-IsGood 6100)
      (good-IsGood 6200) (good-IsGood 6300) (good-IsGood 6400) (inr (refl, omega arith))

-- Connected, with a server that has said nothing since the time 1000.
abbrev silent : Control
silent = record start {
  state = connected;
  handshake_complete = true;
  channel = true;
  last_server_message_time = 1000;
}

abbrev dropped : Control
dropped = loop (good 121500) (loop (good 60000) silent)

abbrev waiting : Control
waiting = loop (good 140000) (loop (good 122000) dropped)

abbrev retrying : Control
retrying = loop (good 155000) (loop (good 152100) (loop (good 152000) waiting))
