-- ===== src/Tcp/Packet/Parsed.antt =====
-- Reading the packets that are built, and packets whose lengths do not fit.
use tailscale_iot.Base.{
  ℕ, ◌+◌, ◌-◌, ◌*◌, ◌%◌, ◌^◌, ◌<◌, ◌≤◌, ◌≡◌, ◌++◌, Bytes, length, take, drop, get_or, arith, some,
  ap, ◌∙◌, take-length_append, drop-append, take-append_more, get_or-drop, length-drop,
}
use tailscale_iot.Tcp.Checksum.{ip_checksum, tcp_checksum}
use tailscale_iot.Tcp.Packet.{
  Endpoints, Segment, ip_header, tcp_segment, build_packet, parse_segment, byte_of, payload_length,
}

-- The fields of a connection fit their types.
pub record IsSized (e : Endpoints) : Type 0 where
  pub src_port : e.src_port < 2 ^ 16
  pub dst_port : e.dst_port < 2 ^ 16
  pub seq : e.seq < 2 ^ 32
  pub ack : e.ack < 2 ^ 32

-- The segment that the peer reads out of a packet of ours.
abbrev pub segment_of : Endpoints → ℕ → Bytes → Segment
segment_of e flags payload = record {
  src_ip =
      byte_of 0 e.our_ip.a * 2 ^ 24
      + byte_of 0 e.our_ip.b * 2 ^ 16
      + byte_of 0 e.our_ip.c * 2 ^ 8
      + byte_of 0 e.our_ip.d;
  src_port = e.dst_port;
  dst_port = e.src_port;
  seq = e.seq;
  ack = e.ack;
  flags = flags;
  payload = payload;
}

parse-headers :
    (e : Endpoints) (flags c d : ℕ) (payload beyond : Bytes)
    → IsSized e
    → length payload ≤ 1460
    → parse_segment (ip_header e (40 + length payload) c ++ tcp_segment e flags payload d) beyond
      ≡ some (segment_of e flags payload)
unfolding parse_segment ip_header tcp_segment
parse-headers e flags c d payload beyond h l =
    ground (arith, take-length_append payload beyond, h.src_port, h.dst_port, h.seq, h.ack)

-- A receiver that reads packets the way `handle_tcp_packet_` does recovers the ports, both
-- sequence numbers, the flags and the payload of every packet that is built, whatever lies
-- behind it in memory.
pub parse_segment-build_packet :
    (e : Endpoints) (flags : ℕ) (payload packet beyond : Bytes)
    → IsSized e
    → build_packet e flags payload ≡ some packet
    → parse_segment packet beyond ≡ some (segment_of e flags payload)
unfolding build_packet
parse_segment-build_packet e flags payload packet beyond h b =
    let n = 40 + length payload in
    let c = ip_checksum (ip_header e n 0) in
    let ip = ip_header e n c in
    let d = tcp_checksum ip (tcp_segment e flags payload 0) in
    let small : length payload ≤ 1460 = ground (arith, b) in
    let built : packet ≡ ip ++ tcp_segment e flags payload d = ground (arith, b) in
    ap (λ (p : Bytes). parse_segment p beyond) built
    ∙ parse-headers e flags c d payload beyond h small

-- The length of the payload is not compared with what was received: if the IP header announces
-- more bytes than the packet has, the payload goes on with the bytes that lie behind it in
-- memory.
pub parse_segment_beyond :
    (packet beyond : Bytes) (s : Segment) (more : ℕ)
    → parse_segment packet beyond ≡ some s
    → get_or packet 0 0 ≡ 0x45
    → get_or packet 32 0 ≡ 0x50
    → get_or packet 2 0 * 2 ^ 8 + get_or packet 3 0 ≡ length packet + more
    → length packet < 2 ^ 16
    → more < 2 ^ 16
    → s.payload ≡ drop 40 packet ++ take more beyond
unfolding parse_segment
parse_segment_beyond packet beyond s more h v o t l k =
    let rest = drop 40 packet in
    let ihl : get_or packet 0 0 % 16 * 4 ≡ 20 = omega (arith, v) in
    let tcp : drop (get_or packet 0 0 % 16 * 4) packet ≡ drop 20 packet =
      (ap (λ n. drop n packet) ihl) in
    let word : get_or (drop (get_or packet 0 0 % 16 * 4) packet) 12 0 ≡ 0x50 =
      (ap (λ (t : Bytes). get_or t 12 0) tcp ∙ get_or-drop 20 12 packet 0 ∙ o) in
    let big : 40 ≤ length packet = ground (arith, h, ihl) in
    let read : s.payload ≡ take (length rest + more) (drop 40 (packet ++ beyond)) =
      (ground (arith, h, ihl, word, length-drop 40 packet)) in
    read
    ∙ ap (take (length rest + more)) (drop-append 40 packet beyond big)
    ∙ take-append_more rest beyond more

-- If the IP header announces fewer bytes than the two headers have, the length wraps around to
-- more than four thousand million bytes.
pub payload_length_wraps :
    (total ihl offset : ℕ)
    → ihl ≤ 60
    → offset ≤ 60
    → total < ihl + offset
    → 2 ^ 32 - 120 ≤ payload_length total ihl offset
payload_length_wraps total ihl offset h k l = omega arith
