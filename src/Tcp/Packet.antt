-- ===== src/Tcp/Packet.antt =====
-- The IP packets that `send_tcp_packet_` of components/tailscale/tailscale.cpp builds, and the
-- segments that `handle_tcp_packet_` reads.
pub mod Valid
pub mod Parsed
use tailscale_iot.Base.{
  ℕ, suc, ◌+◌, ◌-◌, ◌*◌, ◌/◌, ◌%◌, ◌^◌, [], ◌∷◌, ◌++◌, Bytes, Bool, true, false, length, take, drop,
  get_or, if◌then◌else◌, ltb, ◌==◌, Option, none, some,
}
use tailscale_iot.Tcp.Checksum.{ip_checksum, tcp_checksum}

-- The four numbers of an address, and what a packet takes from the connection.
pub record Address : Type 0 where
  pub a : ℕ
  pub b : ℕ
  pub c : ℕ
  pub d : ℕ

pub record Endpoints : Type 0 where
  pub our_ip : Address
  pub src_ip : ℕ
  pub src_port : ℕ
  pub dst_port : ℕ
  pub seq : ℕ
  pub ack : ℕ

abbrev pub byte_of : ℕ → ℕ → ℕ
byte_of n v = v / 2 ^ n % 256

-- The 20 bytes of the IP header; `checksum` stands in the bytes 10 and 11.
unfoldable pub ip_header : Endpoints → ℕ → ℕ → Bytes
ip_header e total_len checksum =
    0x45
    ∷ 0
    ∷ byte_of 8 total_len
    ∷ byte_of 0 total_len
    ∷ 0
    ∷ 0
    ∷ 0x40
    ∷ 0
    ∷ 64
    ∷ 6
    ∷ byte_of 8 checksum
    ∷ byte_of 0 checksum
    ∷ byte_of 0 e.our_ip.a
    ∷ byte_of 0 e.our_ip.b
    ∷ byte_of 0 e.our_ip.c
    ∷ byte_of 0 e.our_ip.d
    ∷ byte_of 24 e.src_ip
    ∷ byte_of 16 e.src_ip
    ∷ byte_of 8 e.src_ip
    ∷ byte_of 0 e.src_ip
    ∷ []

-- The TCP header and the payload; `checksum` stands in the bytes 16 and 17.
unfoldable pub tcp_segment : Endpoints → ℕ → Bytes → ℕ → Bytes
tcp_segment e flags payload checksum =
    byte_of 8 e.dst_port
    ∷ byte_of 0 e.dst_port
    ∷ byte_of 8 e.src_port
    ∷ byte_of 0 e.src_port
    ∷ byte_of 24 e.seq
    ∷ byte_of 16 e.seq
    ∷ byte_of 8 e.seq
    ∷ byte_of 0 e.seq
    ∷ byte_of 24 e.ack
    ∷ byte_of 16 e.ack
    ∷ byte_of 8 e.ack
    ∷ byte_of 0 e.ack
    ∷ 0x50
    ∷ flags
    ∷ 0x20
    ∷ 0
    ∷ byte_of 8 checksum
    ∷ byte_of 0 checksum
    ∷ 0
    ∷ 0
    ∷ payload

-- `send_tcp_packet_` up to the hand-over; a packet of more than 1500 bytes is not built.
unfoldable pub build_packet : Endpoints → ℕ → Bytes → Option Bytes
build_packet e flags payload =
    let total_len = 40 + length payload in
    let ip = ip_header e total_len (ip_checksum (ip_header e total_len 0)) in
    let tcp = tcp_segment e flags payload (tcp_checksum ip (tcp_segment e flags payload 0)) in
    if ltb 1500 total_len then none else some (ip ++ tcp)

-- What `handle_tcp_packet_` takes out of a packet.
pub record Segment : Type 0 where
  pub src_ip : ℕ
  pub src_port : ℕ
  pub dst_port : ℕ
  pub seq : ℕ
  pub ack : ℕ
  pub flags : ℕ
  pub payload : Bytes

abbrev pub be16 : Bytes → ℕ → ℕ
be16 s i = get_or s i 0 * 2 ^ 8 + get_or s (suc i) 0

abbrev pub be32 : Bytes → ℕ → ℕ
be32 s i = be16 s i * 2 ^ 16 + be16 s (2 + i)

-- `ip_total_len - ip_ihl - data_offset` on a `size_t` of 32 bits.
abbrev pub payload_length : ℕ → ℕ → ℕ → ℕ
payload_length total ihl offset = (total + (2 ^ 32 - ihl) + (2 ^ 32 - offset)) % 2 ^ 32

-- A packet too small gives none. The payload's length is the packet's own word: `beyond` is
-- the memory behind the packet, which is read as well where that length is too large.
unfoldable pub parse_segment : Bytes → Bytes → Option Segment
parse_segment packet beyond =
    let ihl = get_or packet 0 0 % 16 * 4 in
    let tcp = drop ihl packet in
    let offset = get_or tcp 12 0 / 16 * 4 in
    let n = payload_length (be16 packet 2) ihl offset in
    if ltb (length packet) (ihl + 20)
    then none
    else some (record {
      src_ip = be32 packet 12;
      src_port = be16 tcp 0;
      dst_port = be16 tcp 2;
      seq = be32 tcp 4;
      ack = be32 tcp 8;
      flags = get_or tcp 13 0;
      payload = take n (drop (ihl + offset) (packet ++ beyond));
    })
