-- ===== src/Tcp/Table/Invariant.antt =====
-- The table of connections: its size, and one open connection for each peer and port.
use tailscale_iot.Base.{
  ℕ, ◌+◌, ◌%◌, ◌^◌, ◌≤◌, ◌≡◌, ap, ◌∙◌, subst, [], ◌∷◌, ◌++◌, Bytes, false, not, ◌&&◌, length,
  get_elem?, All, arith, ltb, ltb→lt, some, Option-cases, Bool-cases, inl, inr, length-set,
  length-append,
}
use tailscale_iot.Tcp.Packet.{Segment, parse_segment}
use tailscale_iot.Tcp.Connection.{
  TcpState, closed, syn_received, is_tcp_state, Handler, TcpConnection, Work, send_data,
  close_connection, handle_known, has_syn, has_ack,
}
use tailscale_iot.Tcp.Table.{
  Stack, max_connections, find_socket, is_closed, is_from, find_connection, work_on, put_back,
  answer_syn, new_connection, handle_syn, clean_up, handle_segment, handle_tcp_packet, socket_send,
  socket_close,
}
use tailscale_iot.Tcp.Table.Endpoint.{
  IsSame, send_packet-IsSame, send_data-IsSame, send_data_state, close_connection-IsSame,
  close_connection_state, handle_known-IsSame,
}
use tailscale_iot.Tcp.Table.Distinct.{
  IsDistinct, IsHeir, set-IsDistinct, find_connection_found, find_connection-none,
  append-IsDistinct, remove_closed-IsDistinct, length-remove_closed,
}

pub record IsTable (st : Stack) : Type 0 where
  pub size : length st.tcp_connections ≤ 4
  pub distinct : IsDistinct st.tcp_connections

clean_up-IsTable : (st : Stack) → IsTable st → IsTable (clean_up st)
clean_up-IsTable st h = record {
  size = omega (arith, length-remove_closed st.tcp_connections, h.size);
  distinct = remove_closed-IsDistinct st.tcp_connections h.distinct;
}

put_back-IsTable :
    (i : ℕ) (c : TcpConnection) (w : Work) (st : Stack)
    → get_elem? st.tcp_connections i ≡ some c
    → IsHeir c w.conn
    → IsTable st
    → IsTable (put_back i w st)
put_back-IsTable i c w st g k h = record {
  size = omega (arith, length-set st.tcp_connections i w.conn, h.size);
  distinct = set-IsDistinct st.tcp_connections i c w.conn g k h.distinct;
}

answer_syn-IsSame : (w : Work) → IsSame w (answer_syn w)
answer_syn-IsSame w = ground (arith, send_packet-IsSame 0x12 [] w)

handle_syn-IsTable :
    (now isn : ℕ) (s : Segment) (k : Handler) (st : Stack)
    → IsTable st
    → IsTable (handle_syn now isn s k st)
unfolding handle_syn
handle_syn-IsTable now isn s k st h =
    elim (Option-cases (find_connection s.src_ip s.src_port st.tcp_connections)) [
      | inl e ↦ elim (Bool-cases (ltb (length st.tcp_connections) max_connections)) [
        | inr f ↦ subst IsTable {x = st} (ground (arith, e, f)) h
        | inl f ↦
            let c = new_connection now isn s k in
            let w = answer_syn (work_on st c) in
            let same = answer_syn-IsSame (work_on st c) in
            let st_new : Stack = (record st {
              tcp_connections = st.tcp_connections ++ w.conn ∷ [];
              events = w.events;
            }) in
            let new : IsTable st_new = (record {
              size = omega (arith, length-append st.tcp_connections (w.conn ∷ []), ltb→lt _ _ f);
              distinct =
                  append-IsDistinct w.conn st.tcp_connections
                    (subst (λ (p : ℕ × ℕ). All (λ d. is_from p.0 p.1 d ≡ false) st.tcp_connections)
                      {x = (s.src_ip, s.src_port)} {y = (w.conn.src_ip, w.conn.src_port)}
                      (ground (arith, same))
                      (find_connection-none s.src_ip s.src_port st.tcp_connections e))
                    h.distinct;
            }) in
            subst IsTable {x = st_new} (ground (arith, e, f)) new
      ]
      | inr ((i, c), e) ↦
          let d : TcpConnection = record c { ack = (s.seq + 1) % 2 ^ 32; state = syn_received } in
          let (g, o) = find_connection_found s.src_ip s.src_port i c st.tcp_connections e in
          let same = answer_syn-IsSame (work_on st d) in
          subst IsTable {x = put_back i (answer_syn (work_on st d)) st} (ground (arith, e)) (
            put_back-IsTable i c (answer_syn (work_on st d)) st g
              (same.src_ip, same.src_port, inl o) h)
    ]

-- A segment of a connection changes neither whose it is nor, where it was open, anything but that
-- it may be closed now.
handle_known-IsHeir :
    (now : ℕ) (s : Segment) (st : Stack) (c : TcpConnection)
    → is_closed c ≡ false
    → IsHeir c (handle_known now s (work_on st c)).0.conn
handle_known-IsHeir now s st c o =
    let same = handle_known-IsSame now s (work_on st c) in (same.src_ip, same.src_port, inl o)

known-IsTable :
    (now i : ℕ) (s : Segment) (c : TcpConnection) (st : Stack)
    → get_elem? st.tcp_connections i ≡ some c
    → is_closed c ≡ false
    → IsTable st
    → IsTable (put_back i (handle_known now s (work_on st c)).0 st)
known-IsTable now i s c st g o h =
    put_back-IsTable i c (handle_known now s (work_on st c)).0 st g
      (handle_known-IsHeir now s st c o) h

handle_segment-IsTable :
    (now isn : ℕ) (s : Segment) (st : Stack) → IsTable st → IsTable (handle_segment now isn s st)
unfolding handle_segment
handle_segment-IsTable now isn s st h =
    elim (Option-cases (find_socket s.dst_port st.bound_sockets)) [
      | inl e ↦ subst IsTable {x = st} (ground (arith, e)) h
      | inr (k, e) ↦ elim (Bool-cases (has_syn s.flags && not (has_ack s.flags))) [
        | inl f ↦
            subst IsTable {x = handle_syn now isn s k st} (ground (arith, e, f))
              (handle_syn-IsTable now isn s k st h)
        | inr f ↦ elim (Option-cases (find_connection s.src_ip s.src_port st.tcp_connections)) [
          | inl g ↦ subst IsTable {x = st} (ground (arith, e, f, g)) h
          | inr ((i, c), g) ↦
              let (at, o) = find_connection_found s.src_ip s.src_port i c st.tcp_connections g in
              let w = (handle_known now s (work_on st c)).0 in
              let known = known-IsTable now i s c st at o h in
              elim (Bool-cases (handle_known now s (work_on st c)).1) [
                | inl l ↦
                    subst IsTable {x = clean_up (put_back i w st)} (ground (arith, e, f, g, l))
                      (clean_up-IsTable (put_back i w st) known)
                | inr l ↦ subst IsTable {x = put_back i w st} (ground (arith, e, f, g, l)) known
              ]
        ]
      ]
    ]

pub handle_tcp_packet-IsTable :
    (now isn : ℕ) (packet beyond : Bytes) (st : Stack)
    → IsTable st
    → IsTable (handle_tcp_packet now isn packet beyond st)
unfolding handle_tcp_packet
handle_tcp_packet-IsTable now isn packet beyond st h =
    elim (Option-cases (parse_segment packet beyond)) [
      | inl e ↦ subst IsTable {x = st} (ground (arith, e)) h
      | inr (s, e) ↦
          subst IsTable {x = handle_segment now isn s st} (ground (arith, e))
            (handle_segment-IsTable now isn s st h)
    ]

-- A send leaves the state as it is.
send_data-IsHeir :
    (bytes : Bytes) (st : Stack) (c : TcpConnection)
    → IsHeir c (send_data bytes (work_on st c)).conn
send_data-IsHeir bytes st c =
    let same = send_data-IsSame bytes (work_on st c) in
    let state = send_data_state bytes (work_on st c) in
    elim (Bool-cases (is_closed c)) [
      | inl e ↦
          (same.src_ip, same.src_port, inr (ap (λ (x : TcpState). is_tcp_state x closed) state ∙ e))
      | inr e ↦ (same.src_ip, same.src_port, inl e)
    ]

pub socket_send-IsTable :
    (i : ℕ) (bytes : Bytes) (st : Stack) → IsTable st → IsTable (socket_send i bytes st)
unfolding socket_send
socket_send-IsTable i bytes st h = elim (Option-cases (get_elem? st.tcp_connections i)) [
  | inl e ↦ subst IsTable {x = st} (ground (arith, e)) h
  | inr (c, e) ↦
      let w = send_data bytes (work_on st c) in
      subst IsTable {x = put_back i w st} (ground (arith, e))
        (put_back-IsTable i c w st e (send_data-IsHeir bytes st c) h)
]

pub socket_close-IsTable : (i : ℕ) (st : Stack) → IsTable st → IsTable (socket_close i st)
unfolding socket_close
socket_close-IsTable i st h = elim (Option-cases (get_elem? st.tcp_connections i)) [
  | inl e ↦ subst IsTable {x = st} (ground (arith, e)) h
  | inr (c, e) ↦
      let w = close_connection (work_on st c) in
      let same = close_connection-IsSame (work_on st c) in
      subst IsTable {x = put_back i w st} (ground (arith, e)) (
        put_back-IsTable i c w st e
          (same.src_ip, same.src_port, inr (ground (arith, close_connection_state (work_on st c))))
          h)
]
