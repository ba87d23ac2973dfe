-- ===== src/Led.antt =====
-- The status LED: `LedStatus` of components/tailscale/led_status.cpp and led_status.h.
-- The RMT driver stands outside: what its calls will return is the list `results` (true from its
-- end on).
pub mod Shown
mod Tests
use tailscale_iot.Base.{
  ℕ, ◌+◌, ◌-◌, ◌*◌, ◌%◌, ◌^◌, List, [], ◌∷◌, Bool, true, false, not, ◌&&◌, ◌||◌, leb, if◌then◌else◌,
}

pub data LedState : Type 0 where
  off : LedState
  connecting : LedState
  connected : LedState
  error : LedState

pub data BlinkType : Type 0 where
  control : BlinkType
  traffic : BlinkType

-- A colour as it is sent: green, red, blue.
pub record Grb : Type 0 where
  pub g : ℕ
  pub r : ℕ
  pub b : ℕ

pub record LedStatus : Type 0 where
  pub state : LedState
  pub initialized : Bool
  pub blinking : Bool
  pub blink_type : BlinkType
  pub blink_start_time : ℕ
  pub shown : Grb
  pub results : List Bool

abbrev pub rgb : ℕ → ℕ → ℕ → Grb
rgb r g b = record { g = g; r = r; b = b }

-- A call of the driver.
abbrev pub call : LedStatus → LedStatus × Bool
call led = elim led.results [ [] ↦ (led, true) | ok ∷ rest ↦ (record led { results = rest }, ok) ]

-- `set_color`; where the driver fails, the LED shows what it showed before.
unfoldable pub set_color : Grb → LedStatus → LedStatus
set_color colour led =
    let (after, ok) = call led in
    if not led.initialized then led else if ok then record after { shown = colour } else after

abbrev pub state_colour : LedState → Grb
state_colour off = rgb 0 0 0
state_colour connecting = rgb 51 33 0
state_colour connected = rgb 0 51 0
state_colour error = rgb 51 0 0

abbrev pub blink_colour : BlinkType → Grb
blink_colour control = rgb 0 0 51
blink_colour traffic = rgb 51 33 0

-- `initialize`: the channel, the encoder, the start of the channel.
unfoldable pub initialize : LedStatus → LedStatus × Bool
initialize led =
    let (led₁, channel) = call led in
    let (led₂, encoder) = call led₁ in
    let (led₃, enabled) = call led₂ in
    if not channel
    then (led₁, false)
    else if not encoder
    then (led₂, false)
    else if not enabled
    then (led₃, false)
    else (set_color (rgb 0 0 0) (record led₃ { initialized = true }), true)

unfoldable pub set_state : LedState → LedStatus → LedStatus
set_state state led =
    let set : LedStatus = record led { state = state } in
    if led.blinking then set else set_color (state_colour state) set

-- `blink`, at the time `now`.
unfoldable pub blink : BlinkType → ℕ → LedStatus → LedStatus
blink kind now led =
    if not led.initialized
    then led
    else set_color (blink_colour kind)
        (record led { blink_type = kind; blinking = true; blink_start_time = now })

-- `BLINK_DURATION_MS`.
abbrev pub blink_duration : ℕ
blink_duration = 50

-- `now - start` on 32 bits.
abbrev pub elapsed : ℕ → ℕ → ℕ
elapsed now start = (now + (2 ^ 32 - start)) % 2 ^ 32

unfoldable pub update : ℕ → LedStatus → LedStatus
update now led =
    if not led.initialized || not led.blinking
    then led
    else if leb blink_duration (elapsed now led.blink_start_time)
    then set_color (state_colour led.state) (record led { blinking = false })
    else led
