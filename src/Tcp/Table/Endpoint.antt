-- ===== src/Tcp/Table/Endpoint.antt =====
-- No operation on a connection changes whose it is.
use tailscale_iot.Base.{
  ℕ, ◌≡◌, refl, List, [], ◌∷◌, ◌++◌, ◌+◌, ◌%◌, ◌^◌, Bytes, length, arith, Option-cases, inl, inr,
}
use tailscale_iot.Tcp.Packet.{Segment, build_packet}
use tailscale_iot.Tcp.Connection.{
  Action, send, close, Handler, Work, endpoints, send_packet, send_data, send_all, disconnect,
  close_connection, perform, consume, offer, accept_data, offer_rest, clear, handle_ack,
  handle_data, handle_fin, handle_known, closed, established, set_state,
}

pub record IsSame (v w : Work) : Type 0 where
  pub src_ip : w.conn.src_ip ≡ v.conn.src_ip
  pub src_port : w.conn.src_port ≡ v.conn.src_port

IsSame-trans : (u v w : Work) → IsSame u v → IsSame v w → IsSame u w
IsSame-trans u v w g h = ground (arith, g, h)

pub send_packet-IsSame :
    (flags : ℕ) (payload : Bytes) (w : Work) → IsSame w (send_packet flags payload w)
unfolding send_packet
send_packet-IsSame flags payload w =
    elim (Option-cases (build_packet (endpoints w) flags payload)) [
      | inl e ↦ ground (arith, e)
      | inr (p, e) ↦ ground (arith, e)
    ]

pub send_packet_state :
    (flags : ℕ) (payload : Bytes) (w : Work)
    → (send_packet flags payload w).conn.state ≡ w.conn.state
unfolding send_packet
send_packet_state flags payload w = elim (Option-cases (build_packet (endpoints w) flags payload)) [
  | inl e ↦ ground (arith, e)
  | inr (p, e) ↦ ground (arith, e)
]

pub send_data-IsSame : (bytes : Bytes) (w : Work) → IsSame w (send_data bytes w)
unfolding send_data
send_data-IsSame bytes w = ground (arith, send_packet-IsSame 0x18 bytes w)

pub send_data_state : (bytes : Bytes) (w : Work) → (send_data bytes w).conn.state ≡ w.conn.state
unfolding send_data
send_data_state bytes w = ground (arith, send_packet_state 0x18 bytes w)

send_all-IsSame : (sends : List Bytes) (w : Work) → IsSame w (send_all sends w)
unfolding send_all
send_all-IsSame [] w = ground arith
send_all-IsSame (bytes ∷ more) w =
    ground (arith, send_data-IsSame bytes w, send_all-IsSame more (send_data bytes w))

disconnect-IsSame : (w : Work) → IsSame w (disconnect w)
unfolding disconnect
disconnect-IsSame w = elim (Option-cases w.conn.socket) [
  | inl e ↦ ground (arith, e)
  | inr (h, e) ↦ ground (arith, e, send_all-IsSame (h.on_disconnect w.conn.rx_buffer) w)
]

pub close_connection-IsSame : (w : Work) → IsSame w (close_connection w)
unfolding close_connection
close_connection-IsSame w =
    ground (arith, disconnect-IsSame w, send_packet-IsSame 0x11 [] (disconnect w))

pub close_connection_state : (w : Work) → (close_connection w).conn.state ≡ closed
unfolding close_connection
close_connection_state w = refl

perform-IsSame : (actions : List Action) (w : Work) → IsSame w (perform actions w)
unfolding perform
perform-IsSame [] w = ground arith
perform-IsSame (send bytes ∷ actions) w =
    ground (arith, send_data-IsSame bytes w, perform-IsSame actions (send_data bytes w))
perform-IsSame (close ∷ actions) w =
    ground (arith, close_connection-IsSame w, perform-IsSame actions (close_connection w))

offer-IsSame : (h : Handler) (w : Work) → IsSame w (offer h w)
unfolding offer consume
offer-IsSame h w = ground (arith, perform-IsSame (h.on_data w.conn.rx_buffer).1 w)

handle_ack-IsSame : (s : Segment) (w : Work) → IsSame w (handle_ack s w)
unfolding handle_ack
handle_ack-IsSame s w = elim (Option-cases w.conn.socket) [
  | inl e ↦ ground (arith, e)
  | inr (h, e) ↦ ground (arith, e, perform-IsSame h.on_connect (set_state established w))
]

accept_data-IsSame : (s : Segment) (w : Work) → IsSame w (accept_data s w)
unfolding accept_data
accept_data-IsSame s w =
    let v = record w {
      conn = record w.conn {
        rx_buffer = w.conn.rx_buffer ++ s.payload;
        ack = (s.seq + length s.payload) % 2 ^ 32;
      };
    } in
    elim (Option-cases w.conn.socket) [
      | inl e ↦ ground (arith, e, send_packet-IsSame 0x10 [] v)
      | inr (h, e) ↦ ground (arith, e, send_packet-IsSame 0x10 [] v, offer-IsSame h v)
    ]

handle_data-IsSame : (s : Segment) (w : Work) → IsSame w (handle_data s w).0
unfolding handle_data
handle_data-IsSame s w = ground (arith, accept_data-IsSame s w, send_packet-IsSame 0x10 [] w)

offer_rest-IsSame : (w : Work) → IsSame w (offer_rest w)
unfolding offer_rest
offer_rest-IsSame w = elim (Option-cases w.conn.socket) [
  | inl e ↦ ground (arith, e)
  | inr (h, e) ↦ ground (arith, e, offer-IsSame h w)
]

handle_fin-IsSame : (s : Segment) (w : Work) → IsSame w (handle_fin s w)
unfolding handle_fin
handle_fin-IsSame s w =
    let gone = clear s (disconnect (offer_rest w)) in
    ground (
      arith,
      offer_rest-IsSame w,
      disconnect-IsSame (offer_rest w),
      send_packet-IsSame 0x11 [] gone,
    )

pub handle_known-IsSame : (now : ℕ) (s : Segment) (w : Work) → IsSame w (handle_known now s w).0
unfolding handle_known
handle_known-IsSame now s w =
    let v = record w { conn = record w.conn { last_activity = now } } in
    let started = handle_ack s v in
    ground (
      arith,
      handle_ack-IsSame s v,
      handle_data-IsSame s started,
      handle_fin-IsSame s (handle_data s started).0,
    )
