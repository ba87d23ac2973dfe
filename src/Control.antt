-- ===== src/Control.antt =====
-- The state machine of components/tailscale/tailscale.cpp: `transition_to`, the handlers of `loop`
-- and the watchdogs of `check_server_keepalive_`.
-- What a handler asks of the outside (the Noise session, the registration, the map, the WireGuard
-- device) is a value of the record `Turn`, one for each pass of `loop`.
pub mod Matched
pub mod Colours
pub mod Recovery
pub mod Watchdog
mod Tests
use tailscale_iot.Base.{
  ℕ, ◌+◌, ◌-◌, ◌%◌, ◌^◌, Bool, true, false, not, ◌&&◌, ◌||◌, ltb, leb, if◌then◌else◌, ◌==◌,
}
use tailscale_iot.Led.{
  LedState, connecting, LedStatus, BlinkType, initialize, set_state, blink, update, elapsed,
}

pub data TailscaleState : Type 0 where
  idle : TailscaleState
  initializing : TailscaleState
  registering : TailscaleState
  registered : TailscaleState
  fetching_map : TailscaleState
  connected : TailscaleState
  error : TailscaleState

abbrev pub code_of : TailscaleState → ℕ
code_of idle = 0
code_of initializing = 1
code_of registering = 2
code_of registered = 3
code_of fetching_map = 4
code_of connected = 5
code_of error = 6

-- `handshake_complete` stands for the stage of the transport, `channel` for a non-null
-- `upgrade_channel_`, `not_ready_since` for the first static variable of that name.
pub record Control : Type 0 where
  pub state : TailscaleState
  pub last_update_time : ℕ
  pub retry_count : ℕ
  pub led : LedStatus
  pub handshake_complete : Bool
  pub channel : Bool
  pub last_server_message_time : ℕ
  pub not_ready_since : ℕ
  pub data_available : Bool

-- The end of `perform_registration_` behind `ensure_ts2021_ready_`: all well; the request failed;
-- the server refused the keys from the flash memory, and new ones were made; any other answer.
pub data Registration : Type 0 where
  accepted : Registration
  post_failed : Registration
  keys_rejected : Registration
  refused : Registration

-- One pass of `loop`: `now` and `later` are what `millis()` gives at the start of the handler and
-- behind its work. `lost` and `arrived` are what has happened since the last pass: the transport
-- failed, data of the server arrived.
pub record Turn : Type 0 where
  pub now : ℕ
  pub later : ℕ
  pub lost : Bool
  pub arrived : Bool
  pub network : Bool
  pub noise_ok : Bool
  pub ready_ok : Bool
  pub registration : Registration
  pub map_ok : Bool
  pub device_ok : Bool
  pub direct_path : Bool
  pub message : Bool

abbrev pub led_state : TailscaleState → LedState
led_state idle = LedState.connecting
led_state initializing = LedState.connecting
led_state registering = LedState.connecting
led_state registered = LedState.connecting
led_state fetching_map = LedState.connecting
led_state connected = LedState.connected
led_state error = LedState.error

unfoldable pub transition_to : TailscaleState → ℕ → Control → Control
transition_to state now c =
    let moved : Control = record c {
      state = state;
      last_update_time = now;
      led = set_state (led_state state) c.led;
    } in
    if code_of c.state == code_of state then c else moved

unfoldable pub handle_idle : Turn → Control → Control
handle_idle t c = if t.network then transition_to initializing t.now c else c

unfoldable pub handle_initializing : Turn → Control → Control
handle_initializing t c =
    let fresh : Control = record c { handshake_complete = false; channel = true } in
    if t.noise_ok then transition_to registering t.later fresh else transition_to error t.later c

-- `ensure_ts2021_ready_`, which wants a channel. A handshake that was complete before stays so, even
-- where the HTTP/2 session does not start; one that was not is complete only if all went well.
abbrev pub ensure_ready : Turn → Control → Control × Bool
ensure_ready t c =
    let ok = c.channel && t.ready_ok in
    (record c { handshake_complete = c.handshake_complete || ok }, ok)

-- `perform_registration_`.
unfoldable pub perform_registration : Turn → Control → Control × Bool
perform_registration t c =
    let (d, ready) = ensure_ready t c in
    let lost : Control = record d { handshake_complete = false } in
    let done : Control × Bool = elim t.registration [
      | accepted ↦ (d, true)
      | keys_rejected ↦ (transition_to error t.later lost, false)
      | post_failed ↦ (lost, false)
      | refused ↦ (d, false)
    ] in
    if ready then done else (d, false)

unfoldable pub handle_registering : Turn → Control → Control
handle_registering t c =
    let (d, ok) = perform_registration t c in
    if ok then transition_to fetching_map t.later d else transition_to error t.later d

-- `fetch_map_response_`, which wants a transport that is ready.
abbrev pub fetch_map : Turn → Control → Control × Bool
fetch_map t c =
    let ok = c.handshake_complete && t.map_ok in
    (record c { last_server_message_time = if ok then t.later else c.last_server_message_time }, ok)

-- `device_ok` is false where the node key or the device manager is not usable.
unfoldable pub handle_fetching_map : Turn → Control → Control
handle_fetching_map t c =
    let (d, ok) = fetch_map t c in
    let done : Control = record (transition_to connected t.later d) { retry_count = 0 } in
    if not ok || not t.device_ok then transition_to error t.later d else done

-- The watchdog of a transport that is not ready.
unfoldable pub watch_transport : Turn → Control → Control
watch_transport t c =
    let since = if c.not_ready_since == 0 then t.now else c.not_ready_since in
    let waiting : Control = record c { not_ready_since = since } in
    let gone : Control = record c {
      not_ready_since = 0;
      last_server_message_time = 0;
      handshake_complete = false;
      channel = false;
    } in
    if leb 30000 (elapsed t.now since)
    then if t.direct_path && ltb (elapsed t.now since) 300000
      then waiting
      else transition_to registering t.later gone
    else waiting

-- The watchdog of a server that is silent.
unfoldable pub watch_server : Turn → Control → Control
watch_server t c =
    let gone : Control = record c {
      handshake_complete = false;
      channel = false;
      last_server_message_time = 0;
    } in
    let read : Control = record c {
      data_available = false;
      last_server_message_time = if t.message then t.now else c.last_server_message_time;
    } in
    if ltb 0 c.last_server_message_time && ltb 120000 (elapsed t.now c.last_server_message_time)
    then gone
    else if c.data_available
    then read
    else c

unfoldable pub check_server_keepalive : Turn → Control → Control
check_server_keepalive t c = if c.handshake_complete then watch_server t c else watch_transport t c

-- `RETRY_DELAY_MS`.
abbrev pub retry_delay : ℕ
retry_delay = 5000

unfoldable pub handle_error : Turn → Control → Control
handle_error t c =
    if ltb retry_delay (elapsed t.now c.last_update_time)
    then transition_to initializing t.later (record c { retry_count = 0 })
    else c

-- The end of `loop`; of the connected state only the watchdogs concern the state machine.
unfoldable pub process_state : Turn → Control → Control
process_state t c = elim c.state [
  | idle ↦ handle_idle t c
  | initializing ↦ handle_initializing t c
  | registering ↦ handle_registering t c
  | registered ↦ c
  | fetching_map ↦ handle_fetching_map t c
  | connected ↦ check_server_keepalive t c
  | error ↦ handle_error t c
]

unfoldable pub loop : Turn → Control → Control
loop t c = process_state t (record c {
  led = update t.now c.led;
  handshake_complete = c.handshake_complete && not t.lost;
  data_available = c.data_available || t.arrived;
})

-- The LED in `setup`.
unfoldable pub set_up_led : Bool → LedStatus → LedStatus
set_up_led led_enabled led =
    let (started, ok) = initialize led in
    let shown = set_state connecting started in
    if led_enabled then if ok then shown else started else led

-- The end of `setup`: all is `ready`, or the flash memory or the keys were not.
unfoldable pub setup : Bool → Bool → ℕ → Control → Control
setup led_enabled ready now c =
    let d : Control = record c { led = set_up_led led_enabled c.led } in
    if ready then record d { state = initializing } else transition_to error now d
