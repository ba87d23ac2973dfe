-- ===== src/Tcp/Connection.antt =====
-- One TCP connection: `TcpConnection` of components/tailscale/tailscale.h, `send_tcp_data`,
-- `close_tcp_connection` and the part of `handle_tcp_packet_` behind the look-up of the connection,
-- in components/tailscale/tailscale.cpp. The handler of a port (`TailscaleSocket`) stands outside:
-- what its callbacks do is a record of functions.
pub mod Kept
pub mod Stream
pub mod Answer
pub mod Delivery
pub mod Errors
use tailscale_iot.Base.{
  ℕ, zero, suc, ◌+◌, ◌-◌, ◌*◌, ◌/◌, ◌%◌, ◌^◌, List, [], ◌∷◌, ◌++◌, Bytes, Bool, true, false, not,
  ◌&&◌, ◌||◌, length, take, drop, if◌then◌else◌, ltb, leb, ◌==◌, Option, none, some,
}
use tailscale_iot.Tcp.Packet.{Address, Endpoints, Segment, build_packet}

pub data TcpState : Type 0 where
  closed : TcpState
  syn_received : TcpState
  established : TcpState
  fin_wait : TcpState

abbrev pub is_tcp_state : TcpState → TcpState → Bool
is_tcp_state closed closed = true
is_tcp_state syn_received syn_received = true
is_tcp_state established established = true
is_tcp_state fin_wait fin_wait = true
is_tcp_state _ _ = false

-- What a handler can do to the connection during a callback.
pub data Action : Type 0 where
  send : Bytes → Action
  close : Action

-- The callbacks of a handler that keeps no state. `on_data` gives the number of bytes that it
-- consumes, and `on_disconnect` only sends.
pub record Handler : Type 0 where
  pub on_connect : List Action
  pub on_data : Bytes → ℕ × List Action
  pub on_disconnect : Bytes → List Bytes

pub record TcpConnection : Type 0 where
  pub src_ip : ℕ
  pub src_port : ℕ
  pub dst_port : ℕ
  pub seq : ℕ
  pub ack : ℕ
  pub state : TcpState
  pub rx_buffer : Bytes
  pub last_activity : ℕ
  pub socket : Option Handler

-- A packet that was handed to WireGuard, bytes that the handler has consumed.
pub data Event : Type 0 where
  packet : Bytes → Event
  taken : Bytes → Event

-- A connection at work: the address of the device, whether the peer has a route (an entry in
-- `ip_to_peer_`), and what has happened, newest first.
pub record Work : Type 0 where
  pub our_ip : Address
  pub routed : Bool
  pub conn : TcpConnection
  pub events : List Event

abbrev pub endpoints : Work → Endpoints
endpoints w = record {
  our_ip = w.our_ip;
  src_ip = w.conn.src_ip;
  src_port = w.conn.src_port;
  dst_port = w.conn.dst_port;
  seq = w.conn.seq;
  ack = w.conn.ack;
}

-- `send_tcp_packet_`.
unfoldable pub send_packet : ℕ → Bytes → Work → Work
send_packet flags payload w = elim (build_packet (endpoints w) flags payload) [
  | none ↦ w
  | some p ↦ if w.routed then record w { events = packet p ∷ w.events } else w
]

-- `conn->seq += n`
abbrev pub advance : ℕ → Work → Work
advance n w = record w { conn = record w.conn { seq = (w.conn.seq + n) % 2 ^ 32 } }

-- `send_tcp_data`.
unfoldable pub send_data : Bytes → Work → Work
send_data bytes w =
    if length bytes == 0 then w else advance (length bytes) (send_packet 0x18 bytes w)

unfoldable pub send_all : List Bytes → Work → Work
send_all [] w = w
send_all (bytes ∷ more) w = send_all more (send_data bytes w)

-- The handler's `on_disconnect`.
unfoldable pub disconnect : Work → Work
disconnect w = elim w.conn.socket [
  | none ↦ w
  | some h ↦ send_all (h.on_disconnect w.conn.rx_buffer) w
]

abbrev pub set_state : TcpState → Work → Work
set_state state w = record w { conn = record w.conn { state = state } }

-- `close_tcp_connection`.
unfoldable pub close_connection : Work → Work
close_connection w = set_state closed (send_packet 0x11 [] (disconnect w))

unfoldable pub perform : List Action → Work → Work
perform [] w = w
perform (send bytes ∷ actions) w = perform actions (send_data bytes w)
perform (close ∷ actions) w = perform actions (close_connection w)

-- The erase behind `on_data`.
unfoldable pub consume : ℕ → Work → Work
consume n w =
    if ltb 0 n && leb n (length w.conn.rx_buffer)
    then record w {
      conn = record w.conn { rx_buffer = drop n w.conn.rx_buffer };
      events = taken (take n w.conn.rx_buffer) ∷ w.events;
    }
    else w

-- `on_data` on what is in the buffer.
unfoldable pub offer : Handler → Work → Work
offer h w = let (n, actions) = h.on_data w.conn.rx_buffer in consume n (perform actions w)

abbrev pub has_fin : ℕ → Bool
has_fin flags = flags % 2 == 1

abbrev pub has_syn : ℕ → Bool
has_syn flags = flags / 2 % 2 == 1

abbrev pub has_ack : ℕ → Bool
has_ack flags = flags / 16 % 2 == 1

unfoldable pub handle_ack : Segment → Work → Work
handle_ack s w =
    let opened = set_state established w in
    if has_ack s.flags && is_tcp_state w.conn.state syn_received
    then elim w.conn.socket [ none ↦ opened | some h ↦ perform h.on_connect opened ]
    else w

-- Data at the expected place.
unfoldable pub accept_data : Segment → Work → Work
accept_data s w =
    let v : Work = record w {
      conn = record w.conn {
        rx_buffer = w.conn.rx_buffer ++ s.payload;
        ack = (s.seq + length s.payload) % 2 ^ 32;
      };
    } in
    elim w.conn.socket [
      | none ↦ send_packet 0x10 [] v
      | some h ↦ if ltb 0 (length v.conn.rx_buffer) then offer h v else send_packet 0x10 [] v
    ]

-- The data of a segment, and whether the function goes on: a duplicate and a segment from
-- the future end it.
unfoldable pub handle_data : Segment → Work → Work × Bool
handle_data s w =
    if ltb 0 (length s.payload) && is_tcp_state w.conn.state established
    then if s.seq == w.conn.ack
      then (accept_data s w, true)
      else if ltb s.seq w.conn.ack
      then (send_packet 0x10 [] w, false)
      else (w, false)
    else (w, true)

-- A last `on_data`, before the connection closes.
unfoldable pub offer_rest : Work → Work
offer_rest w = elim w.conn.socket [
  | none ↦ w
  | some h ↦ if ltb 0 (length w.conn.rx_buffer) then offer h w else w
]

-- The FIN takes one sequence number, unless it comes again.
abbrev pub clear : Segment → Work → Work
clear s w = record w {
  conn = record w.conn {
    rx_buffer = [];
    ack = if leb w.conn.ack s.seq then (s.seq + 1) % 2 ^ 32 else w.conn.ack;
  };
}

unfoldable pub handle_fin : Segment → Work → Work
handle_fin s w =
    let gone = clear s (disconnect (offer_rest w)) in
    if has_fin s.flags then set_state closed (send_packet 0x11 [] gone) else w

-- A segment of a known connection, and whether closed connections are cleaned up behind it.
unfoldable pub handle_known : ℕ → Segment → Work → Work × Bool
handle_known now s w =
    let started = handle_ack s (record w { conn = record w.conn { last_activity = now } }) in
    let (read, more) = handle_data s started in
    if more then (handle_fin s read, true) else (read, false)
