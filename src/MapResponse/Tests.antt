-- ===== src/MapResponse/Tests.antt =====
-- Runs of the map response parser, and the theorems at concrete inputs.
use tailscale_iot.Base.{
  ◌≡◌, refl, [], ◌∷◌, ◌++◌, Bytes, codes, true, false, arith, replicate, find, starts_with, equal,
  c_str, get_or,
}
use tailscale_iot.Http2.Hpack.{digits}
use tailscale_iot.Http2.Session.Post.{decimal}
use tailscale_iot.MapResponse.Extract.{
  memchr, to_quote, extract_quoted, extract_number, section, safe_strncpy, nibble, hex_pairs,
  hex_decode_to_bytes,
}
use tailscale_iot.MapResponse.Extract.Hex.{hex_encode}
use tailscale_iot.MapResponse.Address.{scan_u, scan_dot_u, is_private_ipv4}
use tailscale_iot.MapResponse.Peers.{
  Peer, no_peer, value_of, strip_prefix, parse_key, parse_disco, parse_hostname, matches_any,
  is_allowed, is_ipv6, ip_part, endpoints_loop, parse_endpoint, parse_ip, parse_peer, peers_loop,
}
use tailscale_iot.MapResponse.Peers.Bounds.{no_peer-IsSlot}
use tailscale_iot.MapResponse.Peers.Endpoints.{is_public}
use tailscale_iot.MapResponse.Peers.Written.{Endpoint, v4, v6, pick}
use tailscale_iot.MapResponse.Parse.{
  MapData, number_of, addresses_loop, parse_node, parse_derp, first_derp, parse_map_static,
}
use tailscale_iot.MapResponse.Parse.Form.{IsFit, parse_map_static-IsFit}

private_runs :
    (is_private_ipv4 (codes "192.168.1.20") ≡ true)
    × (is_private_ipv4 (codes "172.32.0.1") ≡ false)
    × (is_private_ipv4 (codes "example.org") ≡ false)
unfolding is_private_ipv4 scan_u scan_dot_u digits c_str
private_runs = (refl, refl, refl)

abbrev local_endpoint : Endpoint
local_endpoint = v4 10 0 0 2 (codes "41641")

abbrev public_endpoint : Endpoint
public_endpoint = v4 203 0 113 9 (codes "41641")

abbrev endpoint_v6 : Endpoint
endpoint_v6 = v6 (codes "2001:db8::1]:41641")

-- The choice is the public endpoint.
chosen : pick (endpoint_v6 ∷ local_endpoint ∷ public_endpoint ∷ []) [] ≡ codes "203.0.113.9:41641"
unfolding safe_strncpy c_str
chosen = refl

derp_is_public : is_public (codes "DERP") ≡ true
unfolding is_private_ipv4 is_ipv6 ip_part scan_u scan_dot_u digits c_str find starts_with
derp_is_public = refl

abbrev object : Bytes
object =
    codes "{\"Key\":\"nodekey:"
    ++ hex_encode (replicate 32 171)
    ++ codes
        "\",\"Name\":\"printer\",\"Endpoints\":[\"10.0.0.2:41641\",\"203.0.113.9:41641\"],\"Addresses\":[\"100.64.0.9/32\"]}"

abbrev json : Bytes
json =
    codes "{\"Node\":{\"ID\":7,\"Addresses\":[\"100.64.0.5/32\"]},\"Peers\":["
    ++ object
    ++ codes "],\"DERPMap\":{\"Regions\":{\"1\":{\"Nodes\":[{\"HostName\":\"derp1\"}]}}}}"

abbrev fresh : MapData
fresh = record {
  node_id = [];
  node_ipv4 = [];
  peers = record { slots = replicate 5 no_peer; count = 0 };
  derp_host = [];
  derp_port = 0;
  stun_port = 0;
}

abbrev peer_of : MapData → Peer
peer_of m = get_or m.peers.slots 0 no_peer

parsed :
    (let m = (parse_map_static (codes "print" ∷ []) json fresh).0 in
      (m.node_id ≡ codes "7")
      × (m.node_ipv4 ≡ codes "100.64.0.5")
      × (m.peers.count ≡ 1)
      × ((peer_of m).node_key ≡ replicate 32 171)
      × ((peer_of m).endpoint ≡ codes "203.0.113.9:41641")
      × ((peer_of m).tailscale_ip ≡ codes "100.64.0.9")
      × (m.derp_host ≡ codes "derp1")
      × (m.derp_port ≡ 443))
unfolding find starts_with equal c_str digits decimal memchr to_quote extract_quoted extract_number
    section safe_strncpy nibble hex_pairs hex_decode_to_bytes scan_u scan_dot_u is_private_ipv4
    value_of strip_prefix parse_key parse_disco parse_hostname matches_any is_allowed is_ipv6
    ip_part endpoints_loop parse_endpoint parse_ip parse_peer peers_loop number_of addresses_loop
    parse_node parse_derp first_derp parse_map_static
parsed = (refl, refl, refl, refl, refl, refl, refl, refl)

fresh-IsFit : IsFit (codes "print" ∷ []) [] fresh
fresh-IsFit =
    let i = no_peer-IsSlot in
    record {
      node_id = omega arith;
      node_ipv4 = omega arith;
      derp_host = omega arith;
      derp_port = omega arith;
      stun_port = omega arith;
      peers = record {
        size = refl;
        slots = (i, (i, (i, (i, (i, _)))));
        bound = omega arith;
        counted = _;
      };
    }

parse_map_static-IsFit_example :
    IsFit (codes "print" ∷ []) json (parse_map_static (codes "print" ∷ []) json fresh).0
parse_map_static-IsFit_example =
    parse_map_static-IsFit (codes "print" ∷ []) [] json fresh fresh-IsFit
