-- ===== src/MapResponse/Parse.antt =====
-- `StaticMapResponse` and `parse_map_static`: the node, the peers and the first DERP server.
pub mod Form
use tailscale_iot.Base.{
  ℕ, zero, suc, ◌+◌, ◌*◌, ◌^◌, ◌%◌, List, [], ◌∷◌, ◌++◌, Bytes, codes, Bool, true, false, not, ◌&&◌,
  ◌||◌, length, take, drop, if◌then◌else◌, ltb, ◌==◌, Option, none, some, find, contains,
}
use tailscale_iot.Http2.Session.Post.{decimal}
use tailscale_iot.MapResponse.Extract.{
  extract_quoted, extract_number, safe_strncpy, memchr, section, keyed_section,
}
use tailscale_iot.MapResponse.Peers.{Peers, peers_loop, value_of, before, ends_list}

pub record MapData : Type 0 where
  pub node_id : Bytes
  pub node_ipv4 : Bytes
  pub peers : Peers
  pub derp_host : Bytes
  pub derp_port : ℕ
  pub stun_port : ℕ

-- The number behind a key.
unfoldable pub number_of : Bytes → Bytes → Option ℕ
number_of key object = elim (find key object) [
  | none ↦ none
  | some (_, from) ↦ extract_number (drop (length key) from)
]

-- The loop over the node's "Addresses": the first without a colon before the slash.
unfoldable pub addresses_loop : ℕ → Bytes → Bytes
addresses_loop zero text = []
addresses_loop (suc fuel) text = elim (extract_quoted text) [
  | none ↦ []
  | some (value, behind) ↦
      let next = addresses_loop fuel behind in
      let ip = before b'/' value in
      if not (contains (b':' ∷ []) ip)
      then safe_strncpy 48 ip
      else if ends_list behind
      then []
      else next
]

-- The node's section, from its key on.
unfoldable pub parse_node : Bytes → MapData → MapData
parse_node node out =
    let identified : MapData = elim (number_of (codes "\"ID\":") node) [
      | none ↦ out
      | some id ↦ record out { node_id = decimal 20 id }
    ] in
    elim (find (codes "\"Addresses\":[") node) [
      | none ↦ identified
      | some (_, from) ↦ record identified {
        node_ipv4 = addresses_loop (length from) (drop 13 from);
      }
    ]

-- `if (out.derp_port == 0 && out.derp_host[0] != '\0')`.
abbrev pub port_or : ℕ → Bytes → ℕ → ℕ
port_or default host port = if port == 0 && ltb 0 (length host) then default else port

abbrev pub read_port : Bytes → Bytes → ℕ → ℕ
read_port key object port = elim (number_of key object) [ none ↦ port | some n ↦ n % 2 ^ 16 ]

-- The object of a DERP server.
unfoldable pub parse_derp : Bytes → MapData → MapData
parse_derp object out =
    let host : Bytes = elim (value_of (codes "\"HostName\":") object) [
      | none ↦ out.derp_host
      | some [] ↦ out.derp_host
      | some (c ∷ name) ↦ safe_strncpy 128 (c ∷ name)
    ] in
    record out {
      derp_host = host;
      derp_port = port_or 443 host (read_port (codes "\"DERPPort\":") object out.derp_port);
      stun_port = port_or 3478 host (read_port (codes "\"STUNPort\":") object out.stun_port);
    }

-- The first object of the first "Nodes" array behind "Regions".
unfoldable pub first_derp : Bytes → Option Bytes
first_derp derp_map = elim (find (codes "\"Regions\":{") derp_map) [
  | none ↦ none
  | some (_, regions) ↦ elim (find (codes "\"Nodes\":[") regions) [
    | none ↦ none
    | some (_, nodes) ↦ elim (memchr b'{' (drop 9 nodes)) [
      | none ↦ none
      | some [] ↦ none
      | some (brace ∷ inside) ↦ some (brace ∷ section b'{' b'}' 1 inside)
    ]
  ]
]

abbrev pub cleared : MapData → MapData
cleared out = record out {
  node_id = [];
  node_ipv4 = [];
  peers = record { slots = out.peers.slots; count = 0 };
}

abbrev pub with_node : Bytes → MapData → MapData
with_node json out = elim (find (codes "\"Node\":{") json) [
  | none ↦ out
  | some (_, from) ↦ parse_node (keyed_section b'{' b'}' 8 from) out
]

abbrev pub with_peers : List Bytes → Bytes → MapData → MapData
with_peers allowed json out = elim (find (codes "\"Peers\":[") json) [
  | none ↦ out
  | some (_, from) ↦
      let text = section b'[' b']' 1 (drop 9 from) in
      record out { peers = peers_loop (length text) allowed text out.peers }
]

abbrev pub with_derp : Bytes → MapData → MapData
with_derp json out = elim (find (codes "\"DERPMap\":{") json) [
  | none ↦ out
  | some (_, from) ↦ elim (first_derp (keyed_section b'{' b'}' 11 from)) [
    | none ↦ out
    | some object ↦ parse_derp object out
  ]
]

-- An empty list of allowed peers is no filter.
unfoldable pub parse_map_static : List Bytes → Bytes → MapData → MapData × Bool
parse_map_static allowed json out =
    let done = with_derp json (with_peers allowed json (with_node json (cleared out))) in
    if length json == 0
    then (out, false)
    else (done, ltb 0 (length done.node_ipv4) || ltb 0 done.peers.count)
