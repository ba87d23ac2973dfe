-- ===== src/Tcp/Tests.antt =====
-- Runs of the TCP stack, with the echo server as handler, and the theorems at concrete inputs.
use tailscale_iot.Base.{
  ◌≡◌, refl, [], ◌∷◌, ◌++◌, ◌*◌, ◌+◌, ◌^◌, ◌≤◌, ◌<◌, Bytes, codes, List, ℕ, true, length, take,
  drop, get_or, arith, replicate, none, some, subst, some-injective, get_elem?,
}
use tailscale_iot.Tcp.Checksum.{fold, rounds, ip_checksum, tcp_checksum}
use tailscale_iot.Tcp.Checksum.Fold.{fold_enough}
use tailscale_iot.Tcp.Packet.{
  Address, Endpoints, Segment, build_packet, parse_segment, ip_header, tcp_segment,
}
use tailscale_iot.Tcp.Packet.Valid.{IsValidPacket, build_packet-IsValidPacket}
use tailscale_iot.Tcp.Packet.Parsed.{segment_of, parse_segment-build_packet, parse_segment_beyond}
use tailscale_iot.Tcp.Connection.{
  established, syn_received, TcpConnection, Work, send_packet, send_data,
}
use tailscale_iot.Tcp.Connection.Kept.{received, IsPatient}
use tailscale_iot.Tcp.Connection.Stream.{IsAt, HasPatient}
use tailscale_iot.Tcp.Connection.Delivery.{
  Carries, Sends, handle_each, handle_each-delivers, place_of,
}
use tailscale_iot.Tcp.Connection.Errors.{send_data_beyond}
use tailscale_iot.Tcp.Echo.{echo_socket, echo_socket-IsPatient}
use tailscale_iot.Tcp.Table.{
  Stack, bind_socket, find_socket, find_connection, handle_tcp_packet, handle_segment, handle_syn,
}
use tailscale_iot.Tcp.Table.Distinct.{IsDistinct}
use tailscale_iot.Tcp.Table.Reach.{bind, packet, here, next, Reach-IsTable}

abbrev address : Address
address = record { a = 100; b = 64; c = 0; d = 7 }

abbrev peer : Endpoints
peer = record {
  our_ip = address;
  src_ip = 1681915910;
  src_port = 40000;
  dst_port = 7777;
  seq = 1000;
  ack = 501;
}

abbrev hello : Bytes
hello = codes "hello\n"

-- The packet of `hello`.
abbrev hello_packet : Bytes
hello_packet =
    let ip = ip_header peer 46 (ip_checksum (ip_header peer 46 0)) in
    ip ++ tcp_segment peer 0x18 hello (tcp_checksum ip (tcp_segment peer 0x18 hello 0))

build_packet_run : build_packet peer 0x18 hello ≡ some hello_packet
unfolding build_packet
build_packet_run = refl

build_packet_large_run : build_packet peer 0x18 (replicate 1461 0) ≡ none
unfolding build_packet
build_packet_large_run = refl

fold_enough_example :
    (fold (rounds + 5) 4294967295 ≡ fold rounds 4294967295) × (fold rounds 4294967295 < 2 ^ 16)
fold_enough_example = fold_enough 4294967295 5 (omega arith)

build_packet-IsValidPacket_example : IsValidPacket hello_packet
build_packet-IsValidPacket_example =
    build_packet-IsValidPacket peer 0x18 hello hello_packet (omega arith) (ground arith)
      build_packet_run

parse_segment-build_packet_example :
    parse_segment hello_packet (codes "secret") ≡ some (segment_of peer 0x18 hello)
parse_segment-build_packet_example =
    parse_segment-build_packet peer 0x18 hello hello_packet (codes "secret")
      (record {
        src_port = omega arith;
        dst_port = omega arith;
        seq = omega arith;
        ack = omega arith;
      })
      build_packet_run

-- The headers alone, which announce six bytes more.
abbrev lying_packet : Bytes
lying_packet = ip_header peer 46 0 ++ tcp_segment peer 0x18 [] 0

parse_segment_run :
    parse_segment lying_packet (codes "secret") ≡ some (segment_of peer 0x18 (codes "secret"))
unfolding parse_segment ip_header tcp_segment
parse_segment_run = refl

lying_packet_size :
    get_or lying_packet 2 0 * 2 ^ 8 + get_or lying_packet 3 0 ≡ length lying_packet + 6
unfolding ip_header tcp_segment
lying_packet_size = refl

lying_packet_start : (get_or lying_packet 0 0 ≡ 0x45) × (get_or lying_packet 32 0 ≡ 0x50)
unfolding ip_header tcp_segment
lying_packet_start = (refl, refl)

lying_packet_length : length lying_packet < 2 ^ 16
unfolding ip_header tcp_segment
lying_packet_length = omega arith

parse_segment_beyond_example : codes "secret" ≡ drop 40 lying_packet ++ take 6 (codes "secret")
parse_segment_beyond_example =
    parse_segment_beyond lying_packet (codes "secret") (segment_of peer 0x18 (codes "secret")) 6
      parse_segment_run lying_packet_start.0 lying_packet_start.1 lying_packet_size
      lying_packet_length (omega arith)

-- A connection to the echo server that has received nothing, and two lines to come.
abbrev connection : TcpConnection
connection = record {
  src_ip = 1681915910;
  src_port = 40000;
  dst_port = 7777;
  seq = 1000;
  ack = 501;
  state = established;
  rx_buffer = [];
  last_activity = 0;
  socket = some echo_socket;
}

abbrev work : Work
work = record { our_ip = address; routed = true; conn = connection; events = [] }

abbrev lines : List Bytes
lines = codes "one\n" ∷ codes "two\n" ∷ []

abbrev stream : Bytes
stream = codes "one\ntwo\n"

abbrev segment : ℕ → Bytes → Segment
segment seq payload = record {
  src_ip = 1681915910;
  src_port = 40000;
  dst_port = 7777;
  seq = seq;
  ack = 1000;
  flags = 0x18;
  payload = payload;
}

echo-HasPatient : HasPatient (some echo_socket)
echo-HasPatient h e = subst IsPatient (some-injective echo_socket h e) echo_socket-IsPatient

work-IsAt : IsAt (some echo_socket) stream 501 0 work
work-IsAt = record {
  handler = refl;
  state = refl;
  ack = refl;
  received = refl;
  bound = omega arith;
}

first-Carries : Carries lines 501 0 (segment 501 (codes "one\n"))
unfolding place_of
first-Carries = record { index = omega arith; seq = refl; payload = refl; fin = refl }

second-Carries : Carries lines 501 1 (segment 505 (codes "two\n"))
unfolding place_of
second-Carries = record { index = omega arith; seq = refl; payload = refl; fin = refl }

-- The second line comes too early, then the first twice, then the second again.
abbrev arriving : List (ℕ × Segment)
arriving =
    (1, segment 505 (codes "two\n"))
    ∷ (2, segment 501 (codes "one\n"))
    ∷ (3, segment 501 (codes "one\n"))
    ∷ (4, segment 505 (codes "two\n"))
    ∷ []

arriving-Sends : Sends lines 501 0 arriving
arriving-Sends = Sends.again 1 second-Carries (
    Sends.turn first-Carries
      (Sends.again 0 first-Carries (Sends.turn second-Carries (Sends.end refl))))

handle_each-delivers_example : received (handle_each arriving work) ≡ stream
handle_each-delivers_example =
    handle_each-delivers (some echo_socket) lines 501 arriving work (omega arith) echo-HasPatient
      (ground arith) work-IsAt arriving-Sends

send_data_beyond_example :
    ((send_data (replicate 2000 0) work).events ≡ [])
    × ((send_data (replicate 2000 0) work).conn.seq ≡ 3000)
send_data_beyond_example = send_data_beyond (replicate 2000 0) work (omega arith)

-- The table, before and behind the SYN of a peer.
abbrev stack : Stack
stack = record {
  our_ip = address;
  routes = 1681915910 ∷ [];
  bound_sockets = [];
  tcp_connections = [];
  events = [];
}

abbrev listening : Stack
listening = (bind_socket 7777 echo_socket stack).0

-- The peer's SYN, which our own code can build.
abbrev syn_endpoints : Endpoints
syn_endpoints = record {
  our_ip = record { a = 100; b = 64; c = 0; d = 6 };
  src_ip = 1681915911;
  src_port = 7777;
  dst_port = 40000;
  seq = 500;
  ack = 0;
}

abbrev syn_packet : Bytes
syn_packet = ip_header syn_endpoints 40 0 ++ tcp_segment syn_endpoints 2 [] 0

abbrev accepted : Stack
accepted = handle_tcp_packet 7 999 syn_packet [] listening

accepted_run :
    get_elem? accepted.tcp_connections 0
    ≡ some (record connection { src_ip = 1681915910; state = syn_received; last_activity = 7 })
unfolding handle_tcp_packet parse_segment ip_header tcp_segment handle_segment bind_socket
    find_socket handle_syn find_connection send_packet build_packet
accepted_run = refl

Reach-IsTable_example : (length accepted.tcp_connections ≤ 4) × IsDistinct accepted.tcp_connections
Reach-IsTable_example =
    Reach-IsTable stack accepted refl
      (next (next here (bind 7777 echo_socket stack)) (packet 7 999 syn_packet [] listening))
