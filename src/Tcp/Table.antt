-- ===== src/Tcp/Table.antt =====
-- The tables of the TCP stack in components/tailscale/tailscale.cpp: `bind_socket`,
-- `find_socket_`, `find_tcp_connection_` and `handle_tcp_packet_` as a whole.
pub mod Endpoint
pub mod Distinct
pub mod Invariant
pub mod Reach
use tailscale_iot.Base.{
  ℕ, zero, suc, ◌+◌, ◌-◌, ◌*◌, ◌%◌, ◌^◌, List, [], ◌∷◌, ◌++◌, Bytes, Bool, true, false, not, ◌&&◌,
  ◌||◌, length, set, get_elem?, if◌then◌else◌, ltb, ◌==◌, Option, none, some,
}
use tailscale_iot.Tcp.Packet.{Address, Segment, parse_segment}
use tailscale_iot.Tcp.Connection.{
  TcpState, closed, syn_received, is_tcp_state, Handler, TcpConnection, Event, Work, send_packet,
  advance, send_data, close_connection, handle_known, has_syn, has_ack,
}

-- The members of the component that the TCP stack uses. `routes` are the addresses with an entry in
-- `ip_to_peer_`.
pub record Stack : Type 0 where
  pub our_ip : Address
  pub routes : List ℕ
  pub bound_sockets : List (ℕ × Handler)
  pub tcp_connections : List TcpConnection
  pub events : List Event

-- `MAX_TCP_CONNECTIONS`.
abbrev pub max_connections : ℕ
max_connections = 4

unfoldable pub find_socket : ℕ → List (ℕ × Handler) → Option Handler
find_socket port [] = none
find_socket port ((p, h) ∷ bound) =
    let rest = find_socket port bound in if p == port then some h else rest

-- `bind_socket` with a handler.
unfoldable pub bind_socket : ℕ → Handler → Stack → Stack × Bool
bind_socket port h st = elim (find_socket port st.bound_sockets) [
  | some _ ↦ (st, false)
  | none ↦ (record st { bound_sockets = (port, h) ∷ st.bound_sockets }, true)
]

abbrev pub is_closed : TcpConnection → Bool
is_closed c = is_tcp_state c.state closed

abbrev pub is_from : ℕ → ℕ → TcpConnection → Bool
is_from ip port c = c.src_ip == ip && c.src_port == port && not (is_closed c)

-- `find_tcp_connection_`: the connection and its index, which stand for the pointer.
unfoldable pub find_connection : ℕ → ℕ → List TcpConnection → Option (ℕ × TcpConnection)
find_connection ip port [] = none
find_connection ip port (c ∷ conns) =
    let rest : Option (ℕ × TcpConnection) = elim (find_connection ip port conns) [
      | none ↦ none
      | some (i, d) ↦ some (suc i, d)
    ] in
    if is_from ip port c then some (0, c) else rest

abbrev pub is_routed : ℕ → List ℕ → Bool
is_routed ip [] = false
is_routed ip (r ∷ routes) = r == ip || is_routed ip routes

abbrev pub work_on : Stack → TcpConnection → Work
work_on st c = record {
  our_ip = st.our_ip;
  routed = is_routed c.src_ip st.routes;
  conn = c;
  events = st.events;
}

abbrev pub put_back : ℕ → Work → Stack → Stack
put_back i w st = record st { tcp_connections = set st.tcp_connections i w.conn; events = w.events }

-- SYN-ACK, which takes one sequence number.
abbrev pub answer_syn : Work → Work
answer_syn w = advance 1 (send_packet 0x12 [] w)

-- The connection of a SYN from a new peer; `isn` is the random initial sequence number.
abbrev pub new_connection : ℕ → ℕ → Segment → Handler → TcpConnection
new_connection now isn s h = record {
  src_ip = s.src_ip;
  src_port = s.src_port;
  dst_port = s.dst_port;
  seq = isn;
  ack = (s.seq + 1) % 2 ^ 32;
  state = syn_received;
  rx_buffer = [];
  last_activity = now;
  socket = some h;
}

unfoldable pub handle_syn : ℕ → ℕ → Segment → Handler → Stack → Stack
handle_syn now isn s h st = elim (find_connection s.src_ip s.src_port st.tcp_connections) [
  | none ↦
      let w = answer_syn (work_on st (new_connection now isn s h)) in
      if ltb (length st.tcp_connections) max_connections
      then record st { tcp_connections = st.tcp_connections ++ w.conn ∷ []; events = w.events }
      else st
  | some (i, c) ↦
      let d : TcpConnection = record c { ack = (s.seq + 1) % 2 ^ 32; state = syn_received } in
      put_back i (answer_syn (work_on st d)) st
]

-- The loop that erases closed connections.
unfoldable pub remove_closed : List TcpConnection → List TcpConnection
remove_closed [] = []
remove_closed (c ∷ conns) = let rest = remove_closed conns in if is_closed c then rest else c ∷ rest

abbrev pub clean_up : Stack → Stack
clean_up st = record st { tcp_connections = remove_closed st.tcp_connections }

unfoldable pub handle_segment : ℕ → ℕ → Segment → Stack → Stack
handle_segment now isn s st = elim (find_socket s.dst_port st.bound_sockets) [
  | none ↦ st
  | some h ↦
      if has_syn s.flags && not (has_ack s.flags)
      then handle_syn now isn s h st
      else elim (find_connection s.src_ip s.src_port st.tcp_connections) [
        | none ↦ st
        | some (i, c) ↦
            let (w, whole) = handle_known now s (work_on st c) in
            if whole then clean_up (put_back i w st) else put_back i w st
      ]
]

-- `handle_tcp_packet_`; `beyond` is the memory behind the packet.
unfoldable pub handle_tcp_packet : ℕ → ℕ → Bytes → Bytes → Stack → Stack
handle_tcp_packet now isn packet beyond st = elim (parse_segment packet beyond) [
  | none ↦ st
  | some s ↦ handle_segment now isn s st
]

-- `send` and `close` of TailscaleServerSocket on a connection of the table.
unfoldable pub socket_send : ℕ → Bytes → Stack → Stack
socket_send i bytes st = elim (get_elem? st.tcp_connections i) [
  | none ↦ st
  | some c ↦ put_back i (send_data bytes (work_on st c)) st
]

unfoldable pub socket_close : ℕ → Stack → Stack
socket_close i st = elim (get_elem? st.tcp_connections i) [
  | none ↦ st
  | some c ↦ put_back i (close_connection (work_on st c)) st
]
