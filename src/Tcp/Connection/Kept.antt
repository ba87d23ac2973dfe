-- ===== src/Tcp/Connection/Kept.antt =====
-- What sending and the callbacks leave of a connection.
use tailscale_iot.Base.{
  ℕ, ◌≡◌, List, [], ◌∷◌, ◌++◌, Bytes, Bool, true, false, take, drop, arith, All, Option-cases, inl,
  inr, append_assoc, take-append-drop,
}
use tailscale_iot.Tcp.Packet.{build_packet}
use tailscale_iot.Tcp.Connection.{
  Action, send, close, Handler, Event, packet, taken, Work, endpoints, send_packet, advance,
  send_data, perform, consume, offer,
}

-- All that the handler has consumed.
abbrev pub consumed : List Event → Bytes
consumed [] = []
consumed (packet p ∷ events) = consumed events
consumed (taken bytes ∷ events) = consumed events ++ bytes

-- Consumed and buffered: what the connection has received.
abbrev pub received : Work → Bytes
received w = consumed w.events ++ w.conn.rx_buffer

-- What the handler leaves as it was, if it does not close the connection.
pub record IsKept (w v : Work) : Type 0 where
  pub received : received v ≡ received w
  pub ack : v.conn.ack ≡ w.conn.ack
  pub state : v.conn.state ≡ w.conn.state
  pub socket : v.conn.socket ≡ w.conn.socket

pub send_packet-IsKept :
    (flags : ℕ) (payload : Bytes) (w : Work) → IsKept w (send_packet flags payload w)
unfolding send_packet
send_packet-IsKept flags payload w =
    elim (Option-cases (build_packet (endpoints w) flags payload)) [
      | inl e ↦ ground (arith, e)
      | inr (p, e) ↦ ground (arith, e)
    ]

IsKept-advance : (n : ℕ) (v w : Work) → IsKept v w → IsKept v (advance n w)
IsKept-advance n v w h = record {
  received = h.received;
  ack = h.ack;
  state = h.state;
  socket = h.socket;
}

IsKept-refl : (w : Work) → IsKept w w
IsKept-refl w = ground arith

IsKept-trans : (u v w : Work) → IsKept u v → IsKept v w → IsKept u w
IsKept-trans u v w g h = ground (arith, g, h)

send_data-IsKept : (bytes : Bytes) (w : Work) → IsKept w (send_data bytes w)
unfolding send_data
send_data-IsKept bytes w = ground (arith, send_packet-IsKept 0x18 bytes w)

abbrev pub is_send : Action → Bool
is_send (send bytes) = true
is_send close = false

perform-IsKept :
    (actions : List Action) (w : Work)
    → All (λ a. is_send a ≡ true) actions
    → IsKept w (perform actions w)
unfolding perform
perform-IsKept [] w h = IsKept-refl w
perform-IsKept (send bytes ∷ actions) w h =
    IsKept-trans w (send_data bytes w) (perform actions (send_data bytes w))
      (send_data-IsKept bytes w) (perform-IsKept actions (send_data bytes w) h.1)
perform-IsKept (close ∷ actions) w h = absurd (ground (arith, h.0))

consume-IsKept : (n : ℕ) (w : Work) → IsKept w (consume n w)
unfolding consume
consume-IsKept n w = ground (
  arith,
  append_assoc (consumed w.events) (take n w.conn.rx_buffer) (drop n w.conn.rx_buffer),
  take-append-drop n w.conn.rx_buffer,
)

-- A handler that never closes the connection when data arrives.
abbrev pub IsPatient : Handler → Type 0
IsPatient h = (bytes : Bytes) → All (λ a. is_send a ≡ true) (h.on_data bytes).1

pub offer-IsKept : (h : Handler) (w : Work) → IsPatient h → IsKept w (offer h w)
unfolding offer
offer-IsKept h w p =
    let performed = perform (h.on_data w.conn.rx_buffer).1 w in
    IsKept-trans w performed (consume (h.on_data w.conn.rx_buffer).0 performed)
      (perform-IsKept (h.on_data w.conn.rx_buffer).1 w (p w.conn.rx_buffer))
      (consume-IsKept (h.on_data w.conn.rx_buffer).0 performed)
