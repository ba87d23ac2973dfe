-- ===== src/MapResponse/Peers.antt =====
-- The peers of a map response: `MinimalPeerInfo` and the loop of `parse_map_static` over the
-- objects of the "Peers" array. A slot of the array keeps what an earlier, rejected peer has left
-- in it.
pub mod Bounds
pub mod Keys
pub mod Filter
pub mod Fuel
pub mod Endpoints
pub mod Written
use tailscale_iot.Base.{
  ℕ, zero, suc, ◌+◌, List, [], ◌∷◌, ◌++◌, Bytes, codes, Bool, true, false, not, ◌&&◌, ◌||◌, length,
  take, drop, set, get_or, replicate, if◌then◌else◌, ltb, ◌==◌, Option, none, some, find, contains,
  starts_with, equal,
}
use tailscale_iot.MapResponse.Extract.{
  extract_quoted, safe_strncpy, hex_decode_to_bytes, memchr, section,
}
use tailscale_iot.MapResponse.Address.{is_private_ipv4}

pub record Peer : Type 0 where
  pub disco_key : Bytes
  pub node_key : Bytes
  pub tailscale_ip : Bytes
  pub hostname : Bytes
  pub endpoint : Bytes
  pub valid : Bool

abbrev pub no_peer : Peer
no_peer = record {
  disco_key = replicate 32 0;
  node_key = replicate 32 0;
  tailscale_ip = [];
  hostname = [];
  endpoint = [];
  valid = false;
}

-- `MAX_PEERS`.
abbrev pub max_peers : ℕ
max_peers = 5

-- The quoted value behind a key.
unfoldable pub value_of : Bytes → Bytes → Option Bytes
value_of key object = elim (find key object) [
  | none ↦ none
  | some (_, from) ↦ elim (extract_quoted (drop (length key) from)) [
    | none ↦ none
    | some (value, _) ↦ some value
  ]
]

-- The hexadecimal digits behind the prefix, which may be missing.
unfoldable pub strip_prefix : Bytes → Bytes → Bytes
strip_prefix prefix value = if starts_with prefix value then drop (length prefix) value else value

unfoldable pub parse_key : Bytes → Peer → Peer
parse_key object peer = elim (value_of (codes "\"Key\":") object) [
  | none ↦ record peer { valid = false }
  | some value ↦
      let (key, n) = hex_decode_to_bytes (strip_prefix (codes "nodekey:") value) peer.node_key in
      if ltb 8 (length value)
      then record peer { node_key = key; valid = n == 32 }
      else record peer { valid = false }
]

unfoldable pub parse_disco : Bytes → Peer → Peer
parse_disco object peer = elim (value_of (codes "\"DiscoKey\":") object) [
  | none ↦ peer
  | some value ↦
      let (key, n) = hex_decode_to_bytes (strip_prefix (codes "discokey:") value) peer.disco_key in
      if ltb 9 (length value) then record peer { disco_key = key } else peer
]

-- `Name`, or else `HostName`; neither leaves the slot's hostname as it is.
unfoldable pub parse_hostname : Bytes → Peer → Peer
parse_hostname object peer = elim (value_of (codes "\"Name\":") object) [
  | some name ↦ record peer { hostname = safe_strncpy 64 name }
  | none ↦ elim (value_of (codes "\"HostName\":") object) [
    | some name ↦ record peer { hostname = safe_strncpy 64 name }
    | none ↦ peer
  ]
]

unfoldable pub matches_any : List Bytes → Bytes → Bool
matches_any [] hostname = false
matches_any (target ∷ targets) hostname =
    equal hostname target || starts_with target hostname || matches_any targets hostname

-- Without a list every peer is allowed.
unfoldable pub is_allowed : List Bytes → Bytes → Bool
is_allowed allowed hostname = length allowed == 0 || matches_any allowed hostname

-- What stands before the first `x`, or before the end.
abbrev pub before : ℕ → Bytes → Bytes
before x [] = []
before x (c ∷ text) = if c == x then [] else c ∷ before x text

-- The address of an endpoint without its port; a `]` ends the search for the colon.
unfoldable pub ip_part : Bytes → Bytes
ip_part text = let ip = before b':' text in if contains (b']' ∷ []) ip then text else ip

unfoldable pub is_ipv6 : Bytes → Bool
is_ipv6 text = contains (b'[' ∷ []) text

abbrev pub ends_list : Bytes → Bool
ends_list [] = true
ends_list (c ∷ text) = c == b']'

-- The loop over the "Endpoints" array: the endpoint that is chosen. `found` is `found_private`.
unfoldable pub endpoints_loop : ℕ → Bool → Bytes → Bytes → Bytes
endpoints_loop zero found text chosen = chosen
endpoints_loop (suc fuel) found text chosen = elim (extract_quoted text) [
  | none ↦ chosen
  | some (value, behind) ↦
      let private = is_private_ipv4 (ip_part value) in
      let taken = not (is_ipv6 value) && private && not found in
      let next =
        endpoints_loop fuel (found || not (is_ipv6 value) && private) behind
          (if taken then safe_strncpy 64 value else chosen) in
      if not (is_ipv6 value) && not private
      then safe_strncpy 64 value
      else if ends_list behind
      then (if taken then safe_strncpy 64 value else chosen)
      else next
]

unfoldable pub parse_endpoint : Bytes → Peer → Peer
parse_endpoint object peer = elim (find (codes "\"Endpoints\":[") object) [
  | none ↦ peer
  | some (_, from) ↦ record peer {
    endpoint = endpoints_loop (length from) false (drop 13 from) peer.endpoint;
  }
]

abbrev pub is_default_route : Bytes → Bool
is_default_route ip = equal ip (codes "0.0.0.0") || equal ip (codes "::")

-- The first of "Addresses" without its prefix length, or the first of "AllowedIPs" unless it is
-- a default route.
unfoldable pub parse_ip : Bytes → Peer → Peer
parse_ip object peer = elim (find (codes "\"Addresses\":[") object) [
  | some (_, from) ↦ elim (extract_quoted (drop 13 from)) [
    | none ↦ peer
    | some (ip, _) ↦ record peer { tailscale_ip = safe_strncpy 16 (before b'/' ip) }
  ]
  | none ↦ elim (find (codes "\"AllowedIPs\":[") object) [
    | none ↦ peer
    | some (_, from) ↦ elim (extract_quoted (drop 14 from)) [
      | none ↦ peer
      | some (ip, _) ↦
          if is_default_route (before b'/' ip)
          then peer
          else record peer { tailscale_ip = safe_strncpy 16 (before b'/' ip) }
    ]
  ]
]

-- The array and `peer_count`.
pub record Peers : Type 0 where
  pub slots : List Peer
  pub count : ℕ

-- One object: what is left in the slot, and whether it is counted.
unfoldable pub parse_peer : List Bytes → Bytes → Peer → Peer × Bool
parse_peer allowed object slot =
    let keyed = parse_key object slot in
    let named = parse_hostname object (parse_disco object keyed) in
    if not keyed.valid
    then (keyed, false)
    else if not (is_allowed allowed named.hostname)
    then (named, false)
    else (parse_ip object (parse_endpoint object named), true)

abbrev pub put_peer : Peers → Peer × Bool → Peers
put_peer ps (peer, counted) = record {
  slots = set ps.slots ps.count peer;
  count = if counted then suc ps.count else ps.count;
}

-- The loop over the "Peers" array. Each round takes at least a brace from the text, so its
-- length is fuel enough.
unfoldable pub peers_loop : ℕ → List Bytes → Bytes → Peers → Peers
peers_loop zero allowed text ps = ps
peers_loop (suc fuel) allowed text ps = elim (memchr b'{' text) [
  | none ↦ ps
  | some [] ↦ ps
  | some (brace ∷ inside) ↦
      let object = brace ∷ section b'{' b'}' 1 inside in
      let slot = get_or ps.slots ps.count no_peer in
      let next =
        peers_loop fuel allowed (drop (length object) (brace ∷ inside))
          (put_peer ps (parse_peer allowed object slot)) in
      if ltb ps.count max_peers then next else ps
]
