-- ===== src/MapResponse/Peers/Bounds.antt =====
-- The fixed buffers of the peers are never overrun.
use tailscale_iot.Base.{
  ℕ, zero, suc, ◌-◌, ◌<◌, ◌≤◌, ◌≡◌, refl, [], ◌∷◌, Bytes, codes, Bool, false, not, length, take,
  drop, arith, Option-cases, inl, inr, if◌then◌else◌, c_str, length-take, ◌&&◌, ◌||◌, find,
}
use tailscale_iot.MapResponse.Extract.{safe_strncpy, extract_quoted}
use tailscale_iot.MapResponse.Extract.Hex.{hex_decode_to_bytes-length}
use tailscale_iot.MapResponse.Address.{is_private_ipv4}
use tailscale_iot.MapResponse.Peers.{
  Peer, no_peer, value_of, strip_prefix, parse_key, parse_disco, parse_hostname, parse_endpoint,
  parse_ip, endpoints_loop, is_ipv6, ip_part, before,
}

length-c_str : (s : Bytes) → length (c_str s) ≤ length s
unfolding c_str
length-c_str [] = omega arith
length-c_str (c ∷ s) = ground (arith, length-c_str s)

pub safe_strncpy-fits : (size : ℕ) (src : Bytes) → 0 < size → length (safe_strncpy size src) < size
unfolding safe_strncpy
safe_strncpy-fits size src h =
    omega (arith, length-c_str (take (size - 1) src), length-take (size - 1) src)

-- The keys fill their arrays, the strings and their NUL fit theirs.
pub record IsSlot (p : Peer) : Type 0 where
  pub node_key : length p.node_key ≡ 32
  pub disco_key : length p.disco_key ≡ 32
  pub tailscale_ip : length p.tailscale_ip < 16
  pub hostname : length p.hostname < 64
  pub endpoint : length p.endpoint < 64

pub no_peer-IsSlot : IsSlot no_peer
no_peer-IsSlot = record {
  node_key = refl;
  disco_key = refl;
  tailscale_ip = omega arith;
  hostname = omega arith;
  endpoint = omega arith;
}

pub parse_key-IsSlot : (object : Bytes) (p : Peer) → IsSlot p → IsSlot (parse_key object p)
unfolding parse_key
parse_key-IsSlot object p h = elim (Option-cases (value_of (codes "\"Key\":") object)) [
  | inl e ↦ ground (arith, e)
  | inr (value, e) ↦
      ground
        (arith, e, hex_decode_to_bytes-length (strip_prefix (codes "nodekey:") value) p.node_key)
]

pub parse_disco-IsSlot : (object : Bytes) (p : Peer) → IsSlot p → IsSlot (parse_disco object p)
unfolding parse_disco
parse_disco-IsSlot object p h = elim (Option-cases (value_of (codes "\"DiscoKey\":") object)) [
  | inl e ↦ ground (arith, e)
  | inr (value, e) ↦
      ground
        (arith, e, hex_decode_to_bytes-length (strip_prefix (codes "discokey:") value) p.disco_key)
]

pub parse_hostname-IsSlot :
    (object : Bytes) (p : Peer) → IsSlot p → IsSlot (parse_hostname object p)
unfolding parse_hostname
parse_hostname-IsSlot object p h = elim (Option-cases (value_of (codes "\"Name\":") object)) [
  | inr (name, e) ↦ ground (arith, e, safe_strncpy-fits 64 name)
  | inl e ↦ elim (Option-cases (value_of (codes "\"HostName\":") object)) [
    | inr (name, f) ↦ ground (arith, e, f, safe_strncpy-fits 64 name)
    | inl f ↦ ground (arith, e, f)
  ]
]

endpoints_loop-fits :
    (fuel : ℕ) (found : Bool) (text chosen : Bytes)
    → length chosen < 64
    → length (endpoints_loop fuel found text chosen) < 64
unfolding endpoints_loop
endpoints_loop-fits zero found text chosen h = h
endpoints_loop-fits (suc fuel) found text chosen h = elim (Option-cases (extract_quoted text)) [
  | inl e ↦ ground (arith, e)
  | inr ((value, behind), e) ↦
      let private = is_private_ipv4 (ip_part value) in
      let taken = not (is_ipv6 value) && private && not found in
      let best : Bytes = if taken then safe_strncpy 64 value else chosen in
      ground (
        arith,
        e,
        safe_strncpy-fits 64 value,
        endpoints_loop-fits fuel (found || not (is_ipv6 value) && private) behind best,
      )
]

pub parse_endpoint-IsSlot :
    (object : Bytes) (p : Peer) → IsSlot p → IsSlot (parse_endpoint object p)
unfolding parse_endpoint
parse_endpoint-IsSlot object p h = elim (Option-cases (find (codes "\"Endpoints\":[") object)) [
  | inl e ↦ ground (arith, e)
  | inr ((a, from), e) ↦
      ground (arith, e, endpoints_loop-fits (length from) false (drop 13 from) p.endpoint)
]

pub parse_ip-IsSlot : (object : Bytes) (p : Peer) → IsSlot p → IsSlot (parse_ip object p)
unfolding parse_ip
parse_ip-IsSlot object p h = elim (Option-cases (find (codes "\"Addresses\":[") object)) [
  | inr ((a, from), e) ↦ elim (Option-cases (extract_quoted (drop 13 from))) [
    | inl f ↦ ground (arith, e, f)
    | inr ((ip, b), f) ↦ ground (arith, e, f, safe_strncpy-fits 16 (before b'/' ip))
  ]
  | inl e ↦ elim (Option-cases (find (codes "\"AllowedIPs\":[") object)) [
    | inl f ↦ ground (arith, e, f)
    | inr ((a, from), f) ↦ elim (Option-cases (extract_quoted (drop 14 from))) [
      | inl g ↦ ground (arith, e, f, g)
      | inr ((ip, b), g) ↦ ground (arith, e, f, g, safe_strncpy-fits 16 (before b'/' ip))
    ]
  ]
]
