-- ===== src/Led/Shown.antt =====
-- What the LED shows.
use tailscale_iot.Base.{ℕ, ◌+◌, ◌%◌, ◌^◌, ◌<◌, ◌≡◌, ◌⊎◌, [], true, false, arith, leb, if◌then◌else◌}
use tailscale_iot.Led.{
  LedState, BlinkType, Grb, LedStatus, set_color, state_colour, blink_colour, initialize, set_state,
  blink, update,
}

-- The colour of the blink, or of the state.
abbrev pub colour_of : LedStatus → Grb
colour_of led = if led.blinking then blink_colour led.blink_type else state_colour led.state

-- An initialised LED shows its colour, if the driver never fails; one that is not initialised does
-- not blink.
pub record IsShown (led : LedStatus) : Type 0 where
  pub results : led.results ≡ []
  pub colour : (led.initialized ≡ false) ⊎ (led.shown ≡ colour_of led)
  pub quiet : (led.initialized ≡ true) ⊎ (led.blinking ≡ false)

-- `initialize` shows black whatever the state is.
pub initialize-IsShown :
    (led : LedStatus)
    → led.state ≡ LedState.off
    → led.blinking ≡ false
    → led.results ≡ []
    → IsShown (initialize led).0
unfolding initialize set_color
initialize-IsShown led s b r = ground (arith, s, b, r)

pub set_state-IsShown : (s : LedState) (led : LedStatus) → IsShown led → IsShown (set_state s led)
unfolding set_state set_color
set_state-IsShown s led h = ground (arith, h.results, h.colour, h.quiet)

pub blink-IsShown :
    (kind : BlinkType) (now : ℕ) (led : LedStatus) → IsShown led → IsShown (blink kind now led)
unfolding blink set_color
blink-IsShown kind now led h = ground (arith, h.results, h.colour, h.quiet)

pub update-IsShown : (now : ℕ) (led : LedStatus) → IsShown led → IsShown (update now led)
unfolding update set_color
update-IsShown now led h = ground (arith, h.results, h.colour, h.quiet)

-- Less than 50 ms after a blink began, `update` leaves its colour; at 50 ms and up to one turn of
-- the 32-bit clock later it brings back the colour of the state, the one that was set last, be it
-- during the blink. (The LED is initialised and the driver does not fail.)
pub blink-update :
    (kind : BlinkType) (start now : ℕ) (s : LedState) (led : LedStatus)
    → led.initialized ≡ true
    → led.results ≡ []
    → start < 2 ^ 32
    → now < 2 ^ 32
    → (update ((start + now) % 2 ^ 32) (set_state s (blink kind start led))).shown
      ≡ (if leb 50 now then state_colour s else blink_colour kind)
unfolding blink set_state update set_color
blink-update kind start now s led i r a b = ground (arith, i, r)
