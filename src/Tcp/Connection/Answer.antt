-- ===== src/Tcp/Connection/Answer.antt =====
-- What a connection takes from a segment and what it answers, together.
use tailscale_iot.Base.{ℕ, [], length, none, some, if◌then◌else◌, ltb, ◌==◌}
use tailscale_iot.Tcp.Packet.{Segment}
use tailscale_iot.Tcp.Connection.{Work, send_packet, offer}
use tailscale_iot.Tcp.Connection.Stream.{buffered}

abbrev pub seen_at : ℕ → Work → Work
seen_at now w = record w { conn = record w.conn { last_activity = now } }

-- Data in their place go into the buffer, from where the handler, if there is one, is offered them;
-- an ACK is sent if there is none.
abbrev pub offer_taken : Segment → Work → Work
offer_taken s w = elim w.conn.socket [
  | none ↦ send_packet 0x10 [] (buffered s w)
  | some h ↦ offer h (buffered s w)
]

-- The response to a segment: to data from before the place an ACK at once, to data from behind it
-- nothing.
abbrev pub respond : ℕ → ℕ → Segment → Work → Work
respond m place s w =
    if length s.payload == 0
    then w
    else if place == m
    then offer_taken s w
    else if ltb place m
    then send_packet 0x10 [] w
    else w
