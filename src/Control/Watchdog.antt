-- ===== src/Control/Watchdog.antt =====
-- The way that the watchdogs take.
use tailscale_iot.Base.{ℕ, List, [], ◌∷◌, ◌≤◌, ◌≡◌, true, false}
use tailscale_iot.Led.{elapsed}
use tailscale_iot.Control.{error, connected, Control, Turn, loop}

-- Passes one after the other.
abbrev pub loop_each : List Turn → Control → Control
loop_each [] c = c
loop_each (t ∷ turns) c = loop_each turns (loop t c)

-- Connected, and the server was heard last at `last`.
pub record IsHeard (last : ℕ) (c : Control) : Type 0 where
  pub state : c.state ≡ connected
  pub handshake : c.handshake_complete ≡ true
  pub heard : c.last_server_message_time ≡ last
  pub quiet : c.not_ready_since ≡ 0
  pub empty : c.data_available ≡ false

-- A pass in which nothing comes, not more than 120 seconds after `last`.
pub record IsCalm (last : ℕ) (t : Turn) : Type 0 where
  pub lost : t.lost ≡ false
  pub arrived : t.arrived ≡ false
  pub soon : elapsed t.now last ≤ 120000

-- Connected without a transport since `since`.
pub record IsWaiting (since : ℕ) (c : Control) : Type 0 where
  pub state : c.state ≡ connected
  pub handshake : c.handshake_complete ≡ false
  pub started : c.not_ready_since ≡ since

-- In the error state since `at`.
pub record IsFailed (at : ℕ) (c : Control) : Type 0 where
  pub state : c.state ≡ error
  pub failed : c.last_update_time ≡ at
