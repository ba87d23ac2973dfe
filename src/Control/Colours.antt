-- ===== src/Control/Colours.antt =====
-- What the LED tells of the state machine.
use tailscale_iot.Base.{
  ℕ, ◌≡◌, ◌⊎◌, inl, inr, refl, [], Bool, true, false, not, ◌&&◌, ◌||◌, arith, if◌then◌else◌,
}
use tailscale_iot.Led.{
  LedState, BlinkType, LedStatus, state_colour, blink_colour, initialize, set_state, blink, update,
  set_color,
}
use tailscale_iot.Led.Shown.{IsShown, blink-IsShown, update-IsShown}
use tailscale_iot.Control.{idle, error, Control, Turn, led_state, loop, set_up_led, setup}
use tailscale_iot.Control.Matched.{IsMatched, transition_to-IsMatched, process_state-IsMatched}

update_state :
    (now : ℕ) (led : LedStatus)
    → ((update now led).state ≡ led.state) × ((update now led).initialized ≡ led.initialized)
unfolding update set_color
update_state now led = ground arith

loop-IsMatched : (t : Turn) (c : Control) → IsMatched c → IsMatched (loop t c)
unfolding loop
loop-IsMatched t c h =
    let d = record c {
      led = update t.now c.led;
      handshake_complete = c.handshake_complete && not t.lost;
      data_available = c.data_available || t.arrived;
    } in
    let matched : IsMatched d = (record {
      shown = update-IsShown t.now c.led h.shown;
      state = ground (arith, h.state, update_state t.now c.led);
    }) in
    process_state-IsMatched d.state t d refl matched

-- The component before `setup`.
pub record IsNew (c : Control) : Type 0 where
  pub state : c.state ≡ idle
  pub led : c.led.state ≡ LedState.off
  pub dark : c.led.initialized ≡ false
  pub quiet : c.led.blinking ≡ false
  pub results : c.led.results ≡ []

-- `setup`, then any passes of `loop`, with blinks between them.
pub data Reach (start : Control) : Control → Type 0 where
  set_up : (led_enabled ready : Bool) (now : ℕ) → Reach start (setup led_enabled ready now start)
  pass : {c : Control} (t : Turn) → Reach start c → Reach start (loop t c)
  blinked :
      {c : Control} (kind : BlinkType) (now : ℕ)
      → Reach start c
      → Reach start (record c { led = blink kind now c.led })

-- The LED behind `setup`: on and orange, or dark.
set_up_led-IsShown :
    (led_enabled : Bool) (c : Control)
    → IsNew c
    → IsShown (set_up_led led_enabled c.led)
      × (((set_up_led led_enabled c.led).initialized ≡ false)
          ⊎ ((set_up_led led_enabled c.led).state ≡ LedState.connecting))
unfolding set_up_led initialize set_state set_color
set_up_led-IsShown false c n =
    (record { results = n.results; colour = inl n.dark; quiet = inr n.quiet }, inl n.dark)
set_up_led-IsShown true c n = ground (arith, n.led, n.quiet, n.results)

setup-IsMatched :
    (led_enabled ready : Bool) (now : ℕ) (c : Control)
    → IsNew c
    → IsMatched (setup led_enabled ready now c)
unfolding setup
setup-IsMatched led_enabled ready now c n =
    let d : Control = record c { led = set_up_led led_enabled c.led } in
    let (shown, state) = set_up_led-IsShown led_enabled c n in
    let matched : IsMatched d = (record {
      shown = shown;
      state = ground (arith, state, n.state);
    }) in
    ground (arith, shown, state, transition_to-IsMatched error now d matched)

blink_state :
    (kind : BlinkType) (now : ℕ) (led : LedStatus)
    → ((blink kind now led).state ≡ led.state)
      × ((blink kind now led).initialized ≡ led.initialized)
unfolding blink set_color
blink_state kind now led = ground arith

Reach-IsMatched : {start c : Control} → IsNew start → Reach start c → IsMatched c
Reach-IsMatched {start} n (set_up led_enabled ready now) =
    setup-IsMatched led_enabled ready now start n
Reach-IsMatched n (pass {c} t r) = loop-IsMatched t c (Reach-IsMatched n r)
Reach-IsMatched n (blinked {c} kind now r) =
    let h = Reach-IsMatched n r in
    record {
      shown = blink-IsShown kind now c.led h.shown;
      state = ground (arith, h.state, blink_state kind now c.led);
    }

-- In every state that the component reaches from its `setup`, with any passes of `loop`, whatever
-- comes of what they ask for, and any blinks between them: an LED that is enabled and not blinking
-- shows the colour of the state, green for "connected", red for an error and orange for all others;
-- a blinking one the colour of the blink. (The driver of the LED does not fail.)
pub Reach-colour :
    (start c : Control)
    → IsNew start
    → Reach start c
    → c.led.initialized ≡ true
    → c.led.shown
      ≡ (if c.led.blinking then blink_colour c.led.blink_type else state_colour (led_state c.state))
Reach-colour start c n r i =
    let h = Reach-IsMatched n r in ground (arith, h.state, h.shown.colour, i)
