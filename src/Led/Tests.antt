-- ===== src/Led/Tests.antt =====
-- Runs of the LED, and its theorem at a concrete input.
use tailscale_iot.Base.{◌≡◌, refl, ◌+◌, ◌%◌, ◌^◌, [], ◌∷◌, true, false, arith}
use tailscale_iot.Led.{
  LedState, BlinkType, LedStatus, rgb, set_color, initialize, set_state, blink, update,
}
use tailscale_iot.Led.Shown.{blink-update}

abbrev dark : LedStatus
dark = record {
  state = LedState.off;
  initialized = false;
  blinking = false;
  blink_type = BlinkType.control;
  blink_start_time = 0;
  shown = rgb 0 0 0;
  results = [];
}

abbrev lit : LedStatus
lit = record dark { initialized = true }

-- The encoder cannot be made.
no_encoder : (initialize (record dark { results = true ∷ false ∷ [] })).1 ≡ false
unfolding initialize
no_encoder = refl

-- Before it is initialised, the LED keeps the state but shows nothing.
early_state : (initialize (set_state LedState.error dark)).0.shown ≡ rgb 0 0 0
unfolding initialize set_state set_color
early_state = refl

-- The clock turns over during the blink.
blink-update_example :
    (update
      ((4294967290 + 50) % 2 ^ 32)
      (set_state LedState.connected (blink BlinkType.traffic 4294967290 lit))).shown
    ≡ rgb 0 51 0
blink-update_example =
    blink-update BlinkType.traffic 4294967290 50 LedState.connected lit refl refl (omega arith)
      (omega arith)
