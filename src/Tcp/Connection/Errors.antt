-- ===== src/Tcp/Connection/Errors.antt =====
-- What a connection does not do: data too long for one packet, data that nobody answers, and a FIN
-- behind data.
use tailscale_iot.Base.{
  ℕ, ◌+◌, ◌%◌, ◌^◌, ◌<◌, ◌≡◌, [], ◌++◌, Bytes, true, length, arith, ap, ◌∙◌, leb, if◌then◌else◌,
  ◌==◌, none, some, length-append,
}
use tailscale_iot.Tcp.Packet.{Segment, build_packet}
use tailscale_iot.Tcp.Connection.{
  established, Handler, Work, endpoints, send_packet, send_data, perform, consume, offer,
  accept_data, handle_data, handle_ack, handle_fin, handle_known, has_fin, disconnect, offer_rest,
  clear,
}
use tailscale_iot.Tcp.Connection.Kept.{send_packet-IsKept}
use tailscale_iot.Tcp.Connection.Stream.{buffered}

build_packet_long :
    (flags : ℕ) (bytes : Bytes) (w : Work)
    → 1460 < length bytes
    → build_packet (endpoints w) flags bytes ≡ none
unfolding build_packet
build_packet_long flags bytes w h = ground arith

-- Of more than 1460 bytes `send_tcp_data` sends nothing, neither the bytes nor a part of them, and
-- gives no error; the sequence number goes on as if all had been sent.
pub send_data_beyond :
    (bytes : Bytes) (w : Work)
    → 1460 < length bytes
    → ((send_data bytes w).events ≡ w.events)
      × ((send_data bytes w).conn.seq ≡ (w.conn.seq + length bytes) % 2 ^ 32)
unfolding send_data send_packet
send_data_beyond bytes w h = ground (arith, h, build_packet_long 0x18 bytes w h)

-- The data of the next segment, at its place, for a handler that waits for more: nothing is sent,
-- no acknowledgement either. The same segment again is acknowledged, as the duplicate that it now
-- is: one more packet is built, which acknowledges up to the end of the data, and goes out if the
-- peer has a route.
pub handle_data_unanswered :
    (s : Segment) (w : Work) (h : Handler)
    → w.conn.socket ≡ some h
    → w.conn.state ≡ established
    → s.seq ≡ w.conn.ack
    → 0 < length s.payload
    → s.seq + length s.payload < 2 ^ 32
    → h.on_data (w.conn.rx_buffer ++ s.payload) ≡ (0, [])
    → ((handle_data s w).0.events ≡ w.events)
      × ((handle_data s w).0.conn.ack ≡ s.seq + length s.payload)
      × ((handle_data s (handle_data s w).0).0 ≡ send_packet 0x10 [] (handle_data s w).0)
unfolding handle_data accept_data offer consume perform
handle_data_unanswered s w h k e q p b o =
    ground (arith, k, e, q, p, b, o, length-append w.conn.rx_buffer s.payload)

disconnect-none : (w : Work) → w.conn.socket ≡ none → disconnect w ≡ w
unfolding disconnect
disconnect-none w e = ground (arith, e)

offer_rest-none : (w : Work) → w.conn.socket ≡ none → offer_rest w ≡ w
unfolding offer_rest
offer_rest-none w e = ground (arith, e)

handle_fin_ack :
    (s : Segment) (w : Work)
    → w.conn.socket ≡ none
    → has_fin s.flags ≡ true
    → (handle_fin s w).conn.ack
      ≡ (if leb w.conn.ack s.seq then (s.seq + 1) % 2 ^ 32 else w.conn.ack)
unfolding handle_fin
handle_fin_ack s w k f =
    let gone : offer_rest w ≡ w = offer_rest-none w k in
    let same : disconnect (offer_rest w) ≡ w = ap disconnect gone ∙ disconnect-none w k in
    ground (arith, f, same, (send_packet-IsKept 0x11 [] (clear s (disconnect (offer_rest w)))).ack)

handle_ack_established : (s : Segment) (w : Work) → w.conn.state ≡ established → handle_ack s w ≡ w
unfolding handle_ack
handle_ack_established s w e = ground (arith, e)

-- Where data at its place leaves a connection without a handler.
handle_data_unhandled :
    (s : Segment) (w : Work)
    → w.conn.socket ≡ none
    → w.conn.state ≡ established
    → s.seq ≡ w.conn.ack
    → s.seq + length s.payload < 2 ^ 32
    → ((handle_data s w).1 ≡ true)
      × ((handle_data s w).0.conn.ack ≡ s.seq + length s.payload)
      × ((handle_data s w).0.conn.socket ≡ none)
unfolding handle_data accept_data
handle_data_unhandled s w k e q b =
    let kept = send_packet-IsKept 0x10 [] (buffered s w) in
    ground (arith, k, e, q, b, kept.ack, kept.socket)

-- A FIN at the place where the connection stands is acknowledged if it comes alone; behind data in
-- the same segment it is not: the acknowledgement ends with the data, since the FIN's place is
-- compared by the number of the segment's first byte. (For a connection without a handler, below
-- the wrap-around.)
handle_fin_acknowledged :
    (now : ℕ) (s : Segment) (w : Work)
    → w.conn.socket ≡ none
    → w.conn.state ≡ established
    → has_fin s.flags ≡ true
    → s.seq ≡ w.conn.ack
    → s.seq + length s.payload + 1 < 2 ^ 32
    → (handle_known now s w).0.conn.ack
      ≡ (if length s.payload == 0 then s.seq + 1 else s.seq + length s.payload)
unfolding handle_known
handle_fin_acknowledged now s w k e f q b =
    let v = record w { conn = record w.conn { last_activity = now } } in
    let (more, ack, socket) = handle_data_unhandled s v k e q (omega (arith, b)) in
    ground (
      arith,
      handle_ack_established s v e,
      more,
      ack,
      handle_fin_ack s (handle_data s v).0 socket f,
      b,
    )
