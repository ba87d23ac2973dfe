-- ===== src/Stun/Answer.antt =====
-- The answers, read by the other side, and what stands behind a packet.
use Prim.Native.Nat.{bit_xor}
use tailscale_iot.Base.{
  get_or, length-append, ℕ, ◌+◌, ◌*◌, ◌^◌, ◌≤◌, ◌≡◌, refl, ap, sym, ◌∙◌, [], ◌∷◌, ◌++◌, Bytes, Bool,
  true, length, take, drop, arith, IsByte, append_assoc, take-length_append, drop-length_append,
}
use tailscale_iot.Stun.{
  Endpoint, answers, discovers, binding_response, stun_binding_response,
  stun_attr_xor_mapped_address, xor_mapped, read_attributes, handle_stun_packet,
}
use tailscale_iot.Stun.Reading.{be16-append}
use tailscale_iot.Tcp.Packet.{be16}
use tailscale_iot.WebSocket.Mask.{bit_xor_twice}

-- A request with the magic cookie, the number of its transaction and its attributes.
abbrev pub request : ℕ → ℕ → Bytes → Bytes → Bytes
request x y id rest = 0x00 ∷ 0x01 ∷ x ∷ y ∷ 0x21 ∷ 0x12 ∷ 0xA4 ∷ 0x42 ∷ id ++ rest

abbrev attribute : Endpoint → Bytes
attribute src =
    0x00
    ∷ 0x20
    ∷ 0x00
    ∷ 0x08
    ∷ 0x00
    ∷ 0x01
    ∷ bit_xor src.port_high 0x21
    ∷ bit_xor src.port_low 0x12
    ∷ bit_xor src.d 0x42
    ∷ bit_xor src.c 0xA4
    ∷ bit_xor src.b 0x12
    ∷ bit_xor src.a 0x21
    ∷ []

abbrev pub response : Endpoint → Bytes → Bytes
response src id = 0x01 ∷ 0x01 ∷ 0x00 ∷ 0x0C ∷ 0x21 ∷ 0x12 ∷ 0xA4 ∷ 0x42 ∷ id ++ attribute src

binding_response-request :
    (src : Endpoint) (x y : ℕ) (id rest : Bytes)
    → length id ≡ 12
    → binding_response src (request x y id rest) ≡ response src id
unfolding binding_response
binding_response-request src x y id rest h =
    let whole : take 12 (id ++ rest) ≡ id =
      ap (λ n. take n (id ++ rest)) (sym h) ∙ take-length_append id rest in
    ap (λ (t : Bytes). 0x01 ∷ 0x01 ∷ 0x00 ∷ 0x0C ∷ 0x21 ∷ 0x12 ∷ 0xA4 ∷ 0x42 ∷ t ++ attribute src)
      whole

-- What the other side takes for its endpoint: the port, and the address in the wrong order.
abbrev pub misread : Endpoint → Endpoint
misread src = record {
  a = bit_xor (bit_xor src.d 0x42) 0x21;
  b = bit_xor (bit_xor src.c 0xA4) 0x12;
  c = bit_xor (bit_xor src.b 0x12) 0xA4;
  d = bit_xor (bit_xor src.a 0x21) 0x42;
  port_high = src.port_high;
  port_low = src.port_low;
}

xor_mapped-attribute :
    (src : Endpoint) (behind : Bytes)
    → IsByte src.port_high
    → IsByte src.port_low
    → xor_mapped (attribute src ++ behind) ≡ misread src
unfolding xor_mapped
xor_mapped-attribute src behind p q = cc (
  bit_xor_twice src.port_high 0x21 p (omega arith),
  bit_xor_twice src.port_low 0x12 q (omega arith),
)

-- A response whose first attribute is an XOR-MAPPED-ADDRESS.
handle_stun_packet_first :
    (o : Bool) (src : Endpoint) (buf beyond t : Bytes)
    → 24 ≤ length buf
    → be16 buf 0 ≡ stun_binding_response
    → drop 20 (buf ++ beyond) ≡ t
    → be16 t 0 ≡ stun_attr_xor_mapped_address
    → 8 ≤ be16 t 2
    → get_or t 5 0 ≡ 0x01
    → handle_stun_packet o src buf beyond ≡ discovers (xor_mapped t)
unfolding handle_stun_packet read_attributes
handle_stun_packet_first o src [] beyond t l r e k n f = absurd (omega arith)
handle_stun_packet_first o src (x ∷ buf) beyond t l r e k n f = ground (arith, r, e, k, n, f)

-- While the socket is open, a request with the magic cookie and 12 bytes of transaction number is
-- answered, and whoever reads the answer the way `handle_stun_packet` reads it finds the port that
-- the request came from. For the address
-- it finds the bytes of the sender's address in the opposite order, each under two different bytes
-- of the magic cookie.
pub handle_stun_packet-answers :
    (o : Bool) (src other : Endpoint) (x y : ℕ) (id rest beyond behind : Bytes)
    → length id ≡ 12
    → IsByte src.port_high
    → IsByte src.port_low
    → (handle_stun_packet true src (request x y id rest) beyond ≡ answers (response src id))
      × (handle_stun_packet o other (response src id) behind ≡ discovers (misread src))
unfolding handle_stun_packet
handle_stun_packet-answers o src other x y id rest beyond behind h p q =
    let long : length (id ++ rest) ≡ 12 + length rest = omega (arith, length-append id rest) in
    let after : drop 20 (response src id ++ behind) ≡ attribute src ++ behind =
      ap (λ n. drop n ((id ++ attribute src) ++ behind)) (sym h)
      ∙ ap (drop (length id)) (append_assoc id (attribute src) behind)
      ∙ drop-length_append id (attribute src ++ behind) in
    (
      ground (arith, long, ap answers (binding_response-request src x y id rest h)),
      handle_stun_packet_first o other (response src id) behind (attribute src ++ behind)
            (omega (arith, h, length-append id (attribute src))) refl after refl (omega arith) refl
          ∙ ap discovers (xor_mapped-attribute src behind p q),
    )

-- The length of an attribute is not compared with what was received: from a response that ends
-- with the type and the length of an XOR-MAPPED-ADDRESS, the endpoint is taken out of the bytes
-- that lie behind the packet.
pub handle_stun_packet_overrun :
    (o : Bool) (src : Endpoint) (header beyond : Bytes) (high low : ℕ)
    → length header ≡ 20
    → be16 header 0 ≡ stun_binding_response
    → 8 ≤ high * 2 ^ 8 + low
    → get_or beyond 1 0 ≡ 0x01
    → handle_stun_packet o src (header ++ 0x00 ∷ 0x20 ∷ high ∷ low ∷ []) beyond
      ≡ discovers (xor_mapped (0x00 ∷ 0x20 ∷ high ∷ low ∷ beyond))
handle_stun_packet_overrun o src header beyond high low h r n f =
    let end = 0x00 ∷ 0x20 ∷ high ∷ low ∷ [] in
    let after : drop 20 ((header ++ end) ++ beyond) ≡ end ++ beyond =
      ap (λ n. drop n ((header ++ end) ++ beyond)) (sym h)
      ∙ ap (drop (length header)) (append_assoc header end beyond)
      ∙ drop-length_append header (end ++ beyond) in
    handle_stun_packet_first o src (header ++ end) beyond (end ++ beyond)
      (omega (arith, h, length-append header end)) (be16-append header end h ∙ r) after refl n f
