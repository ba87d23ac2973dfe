-- ===== src/Stun.antt =====
-- STUN: `handle_stun_packet_` of components/tailscale/tailscale.cpp, which answers the requests
-- that peers send and takes our own endpoint out of the responses.
pub mod Reading
pub mod Answer
mod Tests
use Prim.Native.Nat.{bit_xor}
use tailscale_iot.Base.{
  ℕ, zero, suc, ◌+◌, ◌-◌, ◌*◌, ◌/◌, ◌%◌, [], ◌∷◌, ◌++◌, Bytes, Bool, ◌&&◌, length, take, drop,
  get_or, if◌then◌else◌, ltb, leb, ◌==◌, Option, none, some,
}
use tailscale_iot.Tcp.Packet.{be16}

-- An IPv4 address and a port, as the bytes in network order that a `sockaddr_in` holds.
pub record Endpoint : Type 0 where
  pub a : ℕ
  pub b : ℕ
  pub c : ℕ
  pub d : ℕ
  pub port_high : ℕ
  pub port_low : ℕ

-- What a packet makes the component do: nothing, send an answer to its sender, or take over an
-- endpoint as `discovered_endpoint_`.
pub data Reaction : Type 0 where
  ignores : Reaction
  answers : Bytes → Reaction
  discovers : Endpoint → Reaction

abbrev pub stun_binding_request : ℕ
stun_binding_request = 0x0001

abbrev pub stun_binding_response : ℕ
stun_binding_response = 0x0101

abbrev pub stun_attr_mapped_address : ℕ
stun_attr_mapped_address = 0x0001

abbrev pub stun_attr_xor_mapped_address : ℕ
stun_attr_xor_mapped_address = 0x0020

-- The answer to a request. `x_addr` is made of words in network order and written from its
-- highest byte on: on the little-endian chips the address goes out with its last byte first.
unfoldable pub binding_response : Endpoint → Bytes → Bytes
binding_response src buf =
    0x01 ∷ 0x01 ∷ 0x00 ∷ 0x0C ∷ take 16 (drop 4 buf)
    ++ 0x00
      ∷ 0x20
      ∷ 0x00
      ∷ 0x08
      ∷ 0x00
      ∷ 0x01
      ∷ bit_xor src.port_high (get_or buf 4 0)
      ∷ bit_xor src.port_low (get_or buf 5 0)
      ∷ bit_xor src.d (get_or buf 7 0)
      ∷ bit_xor src.c (get_or buf 6 0)
      ∷ bit_xor src.b (get_or buf 5 0)
      ∷ bit_xor src.a (get_or buf 4 0)
      ∷ []

-- The value of an attribute XOR-MAPPED-ADDRESS: both numbers under the magic cookie 0x2112A442.
unfoldable pub xor_mapped : Bytes → Endpoint
xor_mapped s = record {
  a = bit_xor (get_or s 8 0) 0x21;
  b = bit_xor (get_or s 9 0) 0x12;
  c = bit_xor (get_or s 10 0) 0xA4;
  d = bit_xor (get_or s 11 0) 0x42;
  port_high = bit_xor (get_or s 6 0) 0x21;
  port_low = bit_xor (get_or s 7 0) 0x12;
}

unfoldable pub mapped : Bytes → Endpoint
mapped s = record {
  a = get_or s 8 0;
  b = get_or s 9 0;
  c = get_or s 10 0;
  d = get_or s 11 0;
  port_high = get_or s 6 0;
  port_low = get_or s 7 0;
}

-- The test that an attribute of this type carries an IPv4 address.
abbrev pub carries : ℕ → Bytes → Bool
carries attr_type s = (be16 s 0 == attr_type) && (leb 8 (be16 s 2)) && (get_or s 5 0 == 0x01)

-- The offset of the next attribute, with the padding to four bytes.
abbrev pub attribute_size : Bytes → ℕ
attribute_size s = 4 + (be16 s 2 + 3) / 4 * 4

-- The loop over the attributes: the memory from the offset on, and how much of it is the packet.
unfoldable pub read_attributes : ℕ → Bytes → ℕ → Option Endpoint
read_attributes zero s left = none
read_attributes (suc fuel) s left =
    let rest = read_attributes fuel (drop (attribute_size s) s) (left - attribute_size s) in
    if ltb left 4
    then none
    else if carries stun_attr_xor_mapped_address s
    then some (xor_mapped s)
    else if carries stun_attr_mapped_address s
    then some (mapped s)
    else rest

abbrev found : Option Endpoint → Reaction
found none = ignores
found (some e) = discovers e

-- `has_socket` is the test of `unified_socket_`, `beyond` the memory behind the packet.
unfoldable pub handle_stun_packet : Bool → Endpoint → Bytes → Bytes → Reaction
handle_stun_packet has_socket src buf beyond =
    if ltb (length buf) 20
    then ignores
    else if be16 buf 0 == stun_binding_request
    then if has_socket then answers (binding_response src buf) else ignores
    else if be16 buf 0 == stun_binding_response
    then found (read_attributes (length buf) (drop 20 (buf ++ beyond)) (length buf - 20))
    else ignores
