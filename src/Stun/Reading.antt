-- ===== src/Stun/Reading.antt =====
-- The walk over the attributes of a response.
use Prim.Native.Nat.{bit_xor}
use tailscale_iot.Base.{
  ℕ, zero, suc, ◌+◌, ◌*◌, ◌/◌, ◌^◌, ◌<◌, ◌≤◌, ◌≡◌, ◌≢◌, refl, ap, sym, ◌∙◌, [], ◌∷◌, ◌++◌, List,
  Bytes, Bool, arith, drop, ◌-◌, length, All, some, IsByte, length-append, drop-length_append,
  append_assoc,
}
use tailscale_iot.Stun.{
  Endpoint, read_attributes, attribute_size, stun_attr_mapped_address, stun_attr_xor_mapped_address,
  stun_binding_response, handle_stun_packet, discovers, xor_mapped,
}
use tailscale_iot.Tcp.Packet.{be16, byte_of}
use tailscale_iot.WebSocket.Mask.{bit_xor_twice}

-- The walk ends: once the fuel is more than the bytes that are left, more fuel changes nothing.
pub read_attributes_fuel :
    (n m : ℕ) (s : Bytes) (left : ℕ)
    → left < n
    → left < m
    → read_attributes n s left ≡ read_attributes m s left
unfolding read_attributes
read_attributes_fuel zero m s left h k = absurd (omega arith)
read_attributes_fuel (suc n) zero s left h k = absurd (omega arith)
read_attributes_fuel (suc n) (suc m) s left h k =
    ground (arith, read_attributes_fuel n m (drop (attribute_size s) s) (left - attribute_size s))

pub be16-append : (xs ys : Bytes) → length xs ≡ 20 → be16 (xs ++ ys) 0 ≡ be16 xs 0
be16-append [] ys h = absurd (omega arith)
be16-append (x ∷ []) ys h = absurd (omega arith)
be16-append (x ∷ y ∷ xs) ys h = refl

-- An attribute as the sender of a response lays it out: the value is padded to four bytes.
pub record Attribute : Type 0 where
  pub attr_type : ℕ
  pub value : Bytes

abbrev zeros : ℕ → Bytes
zeros zero = []
zeros (suc n) = 0 ∷ zeros n

length-zeros : (n : ℕ) → length (zeros n) ≡ n
length-zeros zero = refl
length-zeros (suc n) = ap suc (length-zeros n)

abbrev pub encode_attribute : Attribute → Bytes
encode_attribute a =
    byte_of 8 a.attr_type
      ∷ byte_of 0 a.attr_type
      ∷ byte_of 8 (length a.value)
      ∷ byte_of 0 (length a.value)
      ∷ a.value
    ++ zeros ((length a.value + 3) / 4 * 4 - length a.value)

abbrev pub encode_attributes : List Attribute → Bytes
encode_attributes [] = []
encode_attributes (a ∷ attributes) = encode_attribute a ++ encode_attributes attributes

-- An attribute that says nothing of addresses.
pub record IsOther (a : Attribute) : Type 0 where
  pub small : a.attr_type < 2 ^ 16
  pub short : length a.value < 2 ^ 16
  pub not_mapped : a.attr_type ≢ stun_attr_mapped_address
  pub not_xor_mapped : a.attr_type ≢ stun_attr_xor_mapped_address

length-encode_attribute :
    (a : Attribute) (s : Bytes)
    → length a.value < 2 ^ 16
    → attribute_size (encode_attribute a ++ s) ≡ length (encode_attribute a)
length-encode_attribute a s h =
    let n = (length a.value + 3) / 4 * 4 - length a.value in
    omega (arith, h, length-append a.value (zeros n), length-zeros n)

read_attributes_next :
    (fuel left size : ℕ) (t s : Bytes)
    → attribute_size t ≡ size
    → drop size t ≡ s
    → be16 t 0 ≢ stun_attr_mapped_address
    → be16 t 0 ≢ stun_attr_xor_mapped_address
    → read_attributes (suc fuel) t (size + left) ≡ read_attributes fuel s left
unfolding read_attributes
read_attributes_next fuel left size t s e d m x =
    let after : drop (attribute_size t) t ≡ s = ap (λ n. drop n t) e ∙ d in
    let shorter : (size + left) - attribute_size t ≡ left = omega (arith, e) in
    let next : read_attributes fuel (drop (attribute_size t) t) ((size + left) - attribute_size t)
        ≡ read_attributes fuel s left =
      cc (after, shorter) in
    ground (arith, next, m, x, e)

read_attributes_skip :
    (a : Attribute) (fuel left : ℕ) (s : Bytes)
    → IsOther a
    → read_attributes (suc fuel) (encode_attribute a ++ s) (length (encode_attribute a) + left)
      ≡ read_attributes fuel s left
read_attributes_skip a fuel left s h =
    let type : be16 (encode_attribute a ++ s) 0 ≡ a.attr_type = omega (arith, h.small) in
    read_attributes_next fuel left (length (encode_attribute a)) (encode_attribute a ++ s) s
      (length-encode_attribute a s h.short) (drop-length_append (encode_attribute a) s)
      (λ e. h.not_mapped (sym type ∙ e)) (λ e. h.not_xor_mapped (sym type ∙ e))

read_attributes_skip_all :
    (attributes : List Attribute) (fuel left : ℕ) (s : Bytes)
    → All IsOther attributes
    → read_attributes
        (length attributes + fuel)
        (encode_attributes attributes ++ s)
        (length (encode_attributes attributes) + left)
      ≡ read_attributes fuel s left
read_attributes_skip_all [] fuel left s h =
    let fuels : 0 + fuel ≡ fuel = omega arith in
    let lefts : 0 + left ≡ left = omega arith in cc (fuels, lefts)
read_attributes_skip_all (a ∷ attributes) fuel left s h =
    let tail = encode_attributes attributes in
    let sums : length (encode_attribute a ++ tail) + left
        ≡ length (encode_attribute a) + (length tail + left) =
      omega (arith, length-append (encode_attribute a) tail) in
    let fuels : length (a ∷ attributes) + fuel ≡ suc (length attributes + fuel) = omega arith in
    cc (
      append_assoc (encode_attribute a) tail s,
      sums,
      fuels,
      read_attributes_skip a (length attributes + fuel) (length tail + left) (tail ++ s) h.0,
      read_attributes_skip_all attributes fuel left s h.1,
    )

-- The attribute that carries an endpoint, and the fields of an endpoint that are bytes.
abbrev pub xor_mapped_address : Endpoint → Attribute
xor_mapped_address e = record {
  attr_type = stun_attr_xor_mapped_address;
  value =
      0x00
      ∷ 0x01
      ∷ bit_xor e.port_high 0x21
      ∷ bit_xor e.port_low 0x12
      ∷ bit_xor e.a 0x21
      ∷ bit_xor e.b 0x12
      ∷ bit_xor e.c 0xA4
      ∷ bit_xor e.d 0x42
      ∷ [];
}

pub record IsSized (e : Endpoint) : Type 0 where
  pub a : IsByte e.a
  pub b : IsByte e.b
  pub c : IsByte e.c
  pub d : IsByte e.d
  pub port_high : IsByte e.port_high
  pub port_low : IsByte e.port_low

xor_mapped-encode_attribute :
    (e : Endpoint) (s : Bytes)
    → IsSized e
    → xor_mapped (encode_attribute (xor_mapped_address e) ++ s) ≡ e
unfolding xor_mapped
xor_mapped-encode_attribute e s h = cc (
  bit_xor_twice e.port_high 0x21 h.port_high (omega arith),
  bit_xor_twice e.port_low 0x12 h.port_low (omega arith),
  bit_xor_twice e.a 0x21 h.a (omega arith),
  bit_xor_twice e.b 0x12 h.b (omega arith),
  bit_xor_twice e.c 0xA4 h.c (omega arith),
  bit_xor_twice e.d 0x42 h.d (omega arith),
)

read_attributes-xor_mapped_address :
    (fuel left : ℕ) (e : Endpoint) (s : Bytes)
    → 4 ≤ left
    → IsSized e
    → read_attributes (suc fuel) (encode_attribute (xor_mapped_address e) ++ s) left ≡ some e
unfolding read_attributes
read_attributes-xor_mapped_address fuel left e s l h =
    ground (arith, xor_mapped-encode_attribute e s h)

-- The attributes of a response that a server lays out by the standard are walked to the first
-- that carries an address: whatever attributes stand before it and behind it and whatever lies
-- behind the packet, the endpoint that the server saw becomes the one discovered.
pub handle_stun_packet-encode_attributes :
    (o : Bool) (src e : Endpoint) (header tail beyond : Bytes) (attributes : List Attribute)
    → length header ≡ 20
    → be16 header 0 ≡ stun_binding_response
    → All IsOther attributes
    → IsSized e
    → handle_stun_packet o src
        (header
          ++ (encode_attributes attributes ++ (encode_attribute (xor_mapped_address e) ++ tail)))
        beyond
      ≡ discovers e
unfolding handle_stun_packet
handle_stun_packet-encode_attributes o src e header tail beyond attributes h r a z =
    let address = encode_attribute (xor_mapped_address e) in
    let others = encode_attributes attributes in
    let body = others ++ (address ++ tail) in
    let packet = header ++ body in
    let left = length (address ++ tail) in
    let sizes : length packet ≡ 20 + (length others + left) =
      omega (arith, h, length-append header body, length-append others (address ++ tail)) in
    let n = length attributes in
    let after : drop 20 (packet ++ beyond) ≡ others ++ (address ++ (tail ++ beyond)) =
      ap (λ n. drop n (packet ++ beyond)) (sym h)
      ∙ ap (drop (length header)) (append_assoc header body beyond)
      ∙ drop-length_append header (body ++ beyond)
      ∙ append_assoc others (address ++ tail) beyond
      ∙ ap (◌++◌ others) (append_assoc address tail beyond) in
    let shorter : length packet - 20 ≡ length others + left = omega (arith, sizes) in
    let read : read_attributes (length packet) (drop 20 (packet ++ beyond)) (length packet - 20)
        ≡ some e =
      cc (
        after,
        shorter,
        read_attributes_fuel (length packet) (n + suc (length packet))
            (others ++ (address ++ (tail ++ beyond))) (length others + left) (omega (arith, sizes))
            (omega (arith, sizes)),
        read_attributes_skip_all attributes (suc (length packet)) left (address ++ (tail ++ beyond))
            a,
        read_attributes-xor_mapped_address (length packet) left e (tail ++ beyond) (omega arith) z,
      ) in
    let kind : be16 packet 0 ≡ stun_binding_response = be16-append header body h ∙ r in
    ground (arith, read, kind, sizes)
