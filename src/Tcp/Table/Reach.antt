-- ===== src/Tcp/Table/Reach.antt =====
-- The runs of the TCP stack: what its environment may do, in any order.
use tailscale_iot.Base.{
  ℕ, ◌≤◌, ◌≡◌, List, [], Bytes, length, arith, sym, subst, Option-cases, inl, inr,
}
use tailscale_iot.Tcp.Packet.{Address}
use tailscale_iot.Tcp.Connection.{Handler}
use tailscale_iot.Tcp.Table.{
  Stack, bind_socket, handle_tcp_packet, socket_send, socket_close, find_socket,
}
use tailscale_iot.Tcp.Table.Distinct.{IsDistinct}
use tailscale_iot.Tcp.Table.Invariant.{
  IsTable, handle_tcp_packet-IsTable, socket_send-IsTable, socket_close-IsTable,
}

-- One call of the stack, or a change of the addresses by the rest of the component.
pub data Step : Stack → Stack → Type 0 where
  bind : (port : ℕ) (h : Handler) (st : Stack) → Step st (bind_socket port h st).0
  packet :
      (now isn : ℕ) (p beyond : Bytes) (st : Stack)
      → Step st (handle_tcp_packet now isn p beyond st)
  send : (i : ℕ) (bytes : Bytes) (st : Stack) → Step st (socket_send i bytes st)
  close : (i : ℕ) (st : Stack) → Step st (socket_close i st)
  peers :
      (ip : Address) (routes : List ℕ) (st : Stack)
      → Step st (record st { our_ip = ip; routes = routes })

pub data Reach (start : Stack) : Stack → Type 0 where
  here : Reach start start
  next : {st after : Stack} → Reach start st → Step st after → Reach start after

bind_socket-IsTable :
    (port : ℕ) (h : Handler) (st : Stack) → IsTable st → IsTable (bind_socket port h st).0
unfolding bind_socket
bind_socket-IsTable port h st t = elim (Option-cases (find_socket port st.bound_sockets)) [
  | inl e ↦ ground (arith, e, t.size, t.distinct)
  | inr (k, e) ↦ ground (arith, e, t.size, t.distinct)
]

Step-IsTable : {st after : Stack} → Step st after → IsTable st → IsTable after
Step-IsTable (bind port h st) t = bind_socket-IsTable port h st t
Step-IsTable (packet now isn p beyond st) t = handle_tcp_packet-IsTable now isn p beyond st t
Step-IsTable (send i bytes st) t = socket_send-IsTable i bytes st t
Step-IsTable (close i st) t = socket_close-IsTable i st t
Step-IsTable (peers ip routes st) t = record { size = t.size; distinct = t.distinct }

Reach-kept : {start st : Stack} → IsTable start → Reach start st → IsTable st
Reach-kept t here = t
Reach-kept t (next r s) = Step-IsTable s (Reach-kept t r)

-- In every state that the stack reaches from a table without connections, by packets of any
-- content in any order, with binds, sends and closes between them, the table has at most four
-- connections, and no two open ones are from the same address and port.
pub Reach-IsTable :
    (start st : Stack)
    → start.tcp_connections ≡ []
    → Reach start st
    → (length st.tcp_connections ≤ 4) × IsDistinct st.tcp_connections
Reach-IsTable start st e r =
    let empty : IsTable start = (record {
      size = ground (arith, e);
      distinct = subst IsDistinct {x = []} (sym e) _;
    }) in
    let t = Reach-kept empty r in (t.size, t.distinct)
