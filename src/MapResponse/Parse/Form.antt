-- ===== src/MapResponse/Parse/Form.antt =====
-- The whole parser keeps `StaticMapResponse` well formed.
use tailscale_iot.Base.{
  ℕ, zero, suc, ◌+◌, ◌/◌, ◌%◌, ◌^◌, ◌<◌, ◌≤◌, ◌≡◌, sym, subst, ◌==◌, List, [], ◌∷◌, Bytes, codes,
  length, drop, arith, Option-cases, Bool-cases, inl, inr, find, find-parts, length-append,
  if◌then◌else◌, append-nil, ap, ◌∙◌, some, ◌++◌,
}
use tailscale_iot.Http2.Session.Post.{decimal}
use tailscale_iot.MapResponse.Extract.{extract_quoted, section, keyed_section}
use tailscale_iot.MapResponse.Peers.{peers_loop, value_of, before}
use tailscale_iot.MapResponse.Peers.Bounds.{safe_strncpy-fits}
use tailscale_iot.MapResponse.Peers.Filter.{IsWellFormed, peers_loop-IsWellFormed}
use tailscale_iot.MapResponse.Peers.Keys.{IsPart-trans, drop-IsPart, section-IsPart}
use tailscale_iot.MapResponse.Parse.{
  MapData, number_of, addresses_loop, parse_node, read_port, parse_derp, first_derp, cleared,
  with_node, with_peers, with_derp, parse_map_static,
}

length-decimal : (fuel n : ℕ) → length (decimal fuel n) ≤ fuel
unfolding decimal
length-decimal zero n = omega arith
length-decimal (suc fuel) n = ground (
  arith,
  length-decimal fuel (n / 10),
  length-append (decimal fuel (n / 10)) ((b'0' + n % 10) ∷ []),
)

-- Every field fits its array or its type.
pub record IsFit (allowed : List Bytes) (json : Bytes) (m : MapData) : Type 0 where
  pub node_id : length m.node_id < 32
  pub node_ipv4 : length m.node_ipv4 < 48
  pub derp_host : length m.derp_host < 128
  pub derp_port : m.derp_port < 2 ^ 16
  pub stun_port : m.stun_port < 2 ^ 16
  pub peers : IsWellFormed allowed json m.peers

addresses_loop-fits : (fuel : ℕ) (text : Bytes) → length (addresses_loop fuel text) < 48
unfolding addresses_loop
addresses_loop-fits zero text = omega arith
addresses_loop-fits (suc fuel) text = elim (Option-cases (extract_quoted text)) [
  | inl e ↦ ground (arith, e)
  | inr ((value, behind), e) ↦
      ground (arith, e, safe_strncpy-fits 48 (before b'/' value), addresses_loop-fits fuel behind)
]

-- What the node's section may change.
pub record IsNodeOf (out new : MapData) : Type 0 where
  pub node_id : length new.node_id < 32
  pub node_ipv4 : length new.node_ipv4 < 48
  pub peers : new.peers ≡ out.peers
  pub derp_host : new.derp_host ≡ out.derp_host
  pub derp_port : new.derp_port ≡ out.derp_port
  pub stun_port : new.stun_port ≡ out.stun_port

parse_node-IsNodeOf :
    (node : Bytes) (out : MapData)
    → length out.node_id < 32
    → length out.node_ipv4 < 48
    → IsNodeOf out (parse_node node out)
unfolding parse_node
parse_node-IsNodeOf node out h₁ h₂ = elim (Option-cases (number_of (codes "\"ID\":") node)) [
  | inl e ↦ elim (Option-cases (find (codes "\"Addresses\":[") node)) [
    | inl f ↦ ground (arith, e, f)
    | inr ((a, from), f) ↦ ground (arith, e, f, addresses_loop-fits (length from) (drop 13 from))
  ]
  | inr (id, e) ↦ elim (Option-cases (find (codes "\"Addresses\":[") node)) [
    | inl f ↦ ground (arith, e, f, length-decimal 20 id)
    | inr ((a, from), f) ↦
        ground (arith, e, f, length-decimal 20 id, addresses_loop-fits (length from) (drop 13 from))
  ]
]

module _ (allowed : List Bytes) (json : Bytes) where
  cleared-IsFit :
      (prev : Bytes) (out : MapData) → IsFit allowed prev out → IsFit allowed json (cleared out)
  cleared-IsFit prev out h = record {
    node_id = omega arith;
    node_ipv4 = omega arith;
    derp_host = h.derp_host;
    derp_port = h.derp_port;
    stun_port = h.stun_port;
    peers = record { size = h.peers.size; slots = h.peers.slots; bound = omega arith; counted = _ };
  }

  parse_node-IsFit :
      (node : Bytes) (out : MapData)
      → IsFit allowed json out
      → IsFit allowed json (parse_node node out)
  parse_node-IsFit node out h =
      let n = parse_node-IsNodeOf node out h.node_id h.node_ipv4 in
      record {
        node_id = n.node_id;
        node_ipv4 = n.node_ipv4;
        derp_host = subst (λ (s : Bytes). length s < 128) (sym n.derp_host) h.derp_host;
        derp_port = subst (λ (p : ℕ). p < 2 ^ 16) (sym n.derp_port) h.derp_port;
        stun_port = subst (λ (p : ℕ). p < 2 ^ 16) (sym n.stun_port) h.stun_port;
        peers = subst (IsWellFormed allowed json) (sym n.peers) h.peers;
      }

  with_node-IsFit :
      (out : MapData) → IsFit allowed json out → IsFit allowed json (with_node json out)
  with_node-IsFit out h = elim (Option-cases (find (codes "\"Node\":{") json)) [
    | inl e ↦ subst (IsFit allowed json) (ground (arith, e)) h
    | inr ((a, from), e) ↦
        subst (IsFit allowed json) (ground (arith, e))
          (parse_node-IsFit (keyed_section b'{' b'}' 8 from) out h)
  ]

  found-whole :
      (a from : Bytes) → find (codes "\"Peers\":[") json ≡ some (a, from) → json ≡ a ++ (from ++ [])
  found-whole a from e =
      sym (find-parts (codes "\"Peers\":[") json a from e).0
      ∙ ap (λ (x : Bytes). a ++ x) (sym (append-nil from))

  with_peers-IsFit :
      (out : MapData) → IsFit allowed json out → IsFit allowed json (with_peers allowed json out)
  with_peers-IsFit out h = elim (Option-cases (find (codes "\"Peers\":[") json)) [
    | inl e ↦ subst (IsFit allowed json) (ground (arith, e)) h
    | inr ((a, from), e) ↦
        let text = section b'[' b']' 1 (drop 9 from) in
        let part = IsPart-trans text (drop 9 from) json (section-IsPart b'[' b']' 1 (drop 9 from)) (
          IsPart-trans (drop 9 from) from json (drop-IsPart 9 from)
            (record { before = a; after = []; whole = found-whole a from e })) in
        let ps = peers_loop-IsWellFormed (length text) allowed json text out.peers part h.peers in
        let new = record out { peers = peers_loop (length text) allowed text out.peers } in
        let fit : IsFit allowed json new = (record {
          node_id = h.node_id;
          node_ipv4 = h.node_ipv4;
          derp_host = h.derp_host;
          derp_port = h.derp_port;
          stun_port = h.stun_port;
          peers = ps;
        }) in
        subst (IsFit allowed json) (ground (arith, e)) fit
  ]

  read_port-fits :
      (key object : Bytes) (port : ℕ) → port < 2 ^ 16 → read_port key object port < 2 ^ 16
  read_port-fits key object port h = elim (Option-cases (number_of key object)) [
    | inl e ↦ ground (arith, e)
    | inr (n, e) ↦ ground (arith, e)
  ]

  parse_derp-IsFit :
      (object : Bytes) (out : MapData)
      → IsFit allowed json out
      → IsFit allowed json (parse_derp object out)
  unfolding parse_derp
  parse_derp-IsFit object out h =
      let p = read_port-fits (codes "\"DERPPort\":") object out.derp_port h.derp_port in
      let q = read_port-fits (codes "\"STUNPort\":") object out.stun_port h.stun_port in
      record {
        node_id = h.node_id;
        node_ipv4 = h.node_ipv4;
        derp_host = elim (Option-cases (value_of (codes "\"HostName\":") object)) [
          | inl e ↦ ground (arith, e, h.derp_host)
          | inr ([], e) ↦ ground (arith, e, h.derp_host)
          | inr (c ∷ name, e) ↦ ground (arith, e, safe_strncpy-fits 128 (c ∷ name))
        ];
        derp_port = ground (arith, p);
        stun_port = ground (arith, q);
        peers = h.peers;
      }

  with_derp-IsFit :
      (out : MapData) → IsFit allowed json out → IsFit allowed json (with_derp json out)
  with_derp-IsFit out h = elim (Option-cases (find (codes "\"DERPMap\":{") json)) [
    | inl e ↦ subst (IsFit allowed json) (ground (arith, e)) h
    | inr ((a, from), e) ↦ elim (Option-cases (first_derp (keyed_section b'{' b'}' 11 from))) [
      | inl f ↦ subst (IsFit allowed json) (ground (arith, e, f)) h
      | inr (object, f) ↦
          subst (IsFit allowed json) (ground (arith, e, f)) (parse_derp-IsFit object out h)
    ]
  ]

IsFit-equal :
    (allowed : List Bytes) (j k : Bytes) (m n : MapData)
    → j ≡ k
    → m ≡ n
    → IsFit allowed j m
    → IsFit allowed k n
IsFit-equal allowed j k m n e f h =
    subst (λ (i : Bytes). IsFit allowed i n) e (subst (IsFit allowed j) f h)

-- Whatever the server sends, the parser leaves a well-formed `StaticMapResponse` well formed:
-- every string and its NUL fit their arrays, every key has 32 bytes, the ports fit 16 bits, and at
-- most five peers are counted. Each of these has as node key the 32 bytes that the hexadecimal
-- digits behind "Key" spell in an object of the response itself, and a hostname that the filter
-- allows (which may be one that a rejected peer has left in the slot). An empty response changes
-- nothing, so that the keys are those of the response before.
pub parse_map_static-IsFit :
    (allowed : List Bytes) (prev json : Bytes) (out : MapData)
    → IsFit allowed prev out
    → IsFit allowed (if length json == 0 then prev else json) (parse_map_static allowed json out).0
unfolding parse_map_static
parse_map_static-IsFit allowed prev json out h =
    let start = cleared-IsFit allowed json prev out h in
    let node = with_node-IsFit allowed json (cleared out) start in
    let peers = with_peers-IsFit allowed json (with_node json (cleared out)) node in
    let done =
      with_derp-IsFit allowed json (with_peers allowed json (with_node json (cleared out))) peers in
    elim (Bool-cases (length json == 0)) [
      | inl e ↦ IsFit-equal allowed prev _ out _ (ground (arith, e)) (ground (arith, e)) h
      | inr e ↦ IsFit-equal allowed json _ _ _ (ground (arith, e)) (ground (arith, e)) done
    ]
