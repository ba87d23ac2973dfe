-- ===== src/MapResponse/Peers/Filter.antt =====
-- What is in the array of peers after the loop.
use tailscale_iot.Base.{
  ℕ, zero, suc, ◌<◌, ◌≤◌, ◌≡◌, refl, List, [], ◌∷◌, Bytes, codes, find, Bool, true, false, length,
  drop, set, get_or, All, arith, Option-cases, Bool-cases, inl, inr, if◌then◌else◌, ltb, ltb→lt,
  subst, length-set,
}
use tailscale_iot.MapResponse.Extract.{extract_quoted, memchr, section}
use tailscale_iot.MapResponse.Peers.{
  Peer, no_peer, Peers, parse_key, parse_disco, parse_hostname, parse_endpoint, parse_ip,
  is_allowed, parse_peer, peers_loop, put_peer, value_of, strip_prefix,
}
use tailscale_iot.MapResponse.Peers.Keys.{
  HasKey, IsPart, Spells, IsPart-trans, drop-IsPart, memchr-IsPart, brace_section-IsPart,
  parse_key-HasKey,
}
use tailscale_iot.MapResponse.Peers.Bounds.{
  IsSlot, no_peer-IsSlot, parse_key-IsSlot, parse_disco-IsSlot, parse_hostname-IsSlot,
  parse_endpoint-IsSlot, parse_ip-IsSlot,
}

-- The first `n` elements have the property.
abbrev pub First {ℓ κ} : {A : Type ℓ} → (A → Type κ) → ℕ → List A → Type κ
First P zero xs = Unit
First P (suc n) [] = Unit
First P (suc n) (x ∷ xs) = P x × First P n xs

module _ {ℓ κ} {A : Type ℓ} (P : A → Type κ) where
  First-set : (n : ℕ) (xs : List A) (v : A) → First P n xs → First P n (set xs n v)
  First-set zero xs v h = _
  First-set (suc n) [] v h = _
  First-set (suc n) (x ∷ xs) v h = (h.0, First-set n xs v h.1)

  First-set_next : (n : ℕ) (xs : List A) (v : A) → First P n xs → P v → First P (suc n) (set xs n v)
  First-set_next zero [] v h p = _
  First-set_next zero (x ∷ xs) v h p = (p, _)
  First-set_next (suc n) [] v h p = _
  First-set_next (suc n) (x ∷ xs) v h p = (h.0, First-set_next n xs v h.1 p)

  First-put :
      (b : Bool) (n : ℕ) (xs : List A) (v : A)
      → First P n xs
      → (b ≡ true → P v)
      → First P (if b then suc n else n) (set xs n v)
  First-put true n xs v h p = First-set_next n xs v h (p refl)
  First-put false n xs v h p = First-set n xs v h

  All-set : (n : ℕ) (xs : List A) (v : A) → All P xs → P v → All P (set xs n v)
  All-set n [] v h p = _
  All-set zero (x ∷ xs) v h p = (p, h.1)
  All-set (suc n) (x ∷ xs) v h p = (h.0, All-set n xs v h.1 p)

  All-get_or : (n : ℕ) (xs : List A) (d : A) → All P xs → P d → P (get_or xs n d)
  All-get_or n [] d h p = p
  All-get_or zero (x ∷ xs) d h p = h.0
  All-get_or (suc n) (x ∷ xs) d h p = All-get_or n xs d h.1 p

-- A peer that is counted has a node key that the text spells, and passes the filter.
pub record IsCounted (allowed : List Bytes) (json : Bytes) (p : Peer) : Type 0 where
  pub valid : p.valid ≡ true
  pub allowed_name : is_allowed allowed p.hostname ≡ true
  pub key : HasKey json p

-- The invariant of the array.
pub record IsWellFormed (allowed : List Bytes) (json : Bytes) (ps : Peers) : Type 0 where
  pub size : length ps.slots ≡ 5
  pub slots : All IsSlot ps.slots
  pub bound : ps.count ≤ 5
  pub counted : First (IsCounted allowed json) ps.count ps.slots

parse_peer-IsSlot :
    (allowed : List Bytes) (object : Bytes) (p : Peer)
    → IsSlot p
    → IsSlot (parse_peer allowed object p).0
unfolding parse_peer
parse_peer-IsSlot allowed object p h =
    let keyed = parse_key-IsSlot object p h in
    let disco = parse_disco-IsSlot object (parse_key object p) keyed in
    let named = parse_hostname-IsSlot object _ disco in
    let ready = parse_endpoint-IsSlot object _ named in
    let whole = parse_ip-IsSlot object _ ready in ground (arith, keyed, named, whole)

parse_disco_keeps :
    (object : Bytes) (p : Peer)
    → ((parse_disco object p).valid ≡ p.valid) × ((parse_disco object p).node_key ≡ p.node_key)
unfolding parse_disco
parse_disco_keeps object p = elim (Option-cases (value_of (codes "\"DiscoKey\":") object)) [
  | inl e ↦ ground (arith, e)
  | inr (value, e) ↦ ground (arith, e)
]

parse_hostname_keeps :
    (object : Bytes) (p : Peer)
    → ((parse_hostname object p).valid ≡ p.valid)
      × ((parse_hostname object p).node_key ≡ p.node_key)
unfolding parse_hostname
parse_hostname_keeps object p = elim (Option-cases (value_of (codes "\"Name\":") object)) [
  | inr (name, e) ↦ ground (arith, e)
  | inl e ↦ elim (Option-cases (value_of (codes "\"HostName\":") object)) [
    | inr (name, f) ↦ ground (arith, e, f)
    | inl f ↦ ground (arith, e, f)
  ]
]

parse_endpoint_keeps :
    (object : Bytes) (p : Peer)
    → ((parse_endpoint object p).valid ≡ p.valid)
      × ((parse_endpoint object p).hostname ≡ p.hostname)
      × ((parse_endpoint object p).node_key ≡ p.node_key)
unfolding parse_endpoint
parse_endpoint_keeps object p = elim (Option-cases (find (codes "\"Endpoints\":[") object)) [
  | inl e ↦ ground (arith, e)
  | inr (from, e) ↦ ground (arith, e)
]

parse_ip_keeps :
    (object : Bytes) (p : Peer)
    → ((parse_ip object p).valid ≡ p.valid)
      × ((parse_ip object p).hostname ≡ p.hostname)
      × ((parse_ip object p).node_key ≡ p.node_key)
unfolding parse_ip
parse_ip_keeps object p = elim (Option-cases (find (codes "\"Addresses\":[") object)) [
  | inr ((a, from), e) ↦ elim (Option-cases (extract_quoted (drop 13 from))) [
    | inl f ↦ ground (arith, e, f)
    | inr (ip, f) ↦ ground (arith, e, f)
  ]
  | inl e ↦ elim (Option-cases (find (codes "\"AllowedIPs\":[") object)) [
    | inl f ↦ ground (arith, e, f)
    | inr ((a, from), f) ↦ elim (Option-cases (extract_quoted (drop 14 from))) [
      | inl g ↦ ground (arith, e, f, g)
      | inr (ip, g) ↦ ground (arith, e, f, g)
    ]
  ]
]

parse_peer-IsCounted :
    (allowed : List Bytes) (json object : Bytes) (p : Peer)
    → IsPart object json
    → IsSlot p
    → (parse_peer allowed object p).1 ≡ true
    → IsCounted allowed json (parse_peer allowed object p).0
unfolding parse_peer
parse_peer-IsCounted allowed json object p i sl h =
    let keyed = parse_key object p in
    let disco = parse_disco object keyed in
    let named = parse_hostname object disco in
    let after_disco = parse_disco_keeps object keyed in
    let after_name = parse_hostname_keeps object disco in
    let after_endpoint = parse_endpoint_keeps object named in
    let after_ip = parse_ip_keeps object (parse_endpoint object named) in
    let valid : keyed.valid ≡ true =
      ground (arith, h, after_disco, after_name, after_endpoint, after_ip) in
    let found = parse_key-HasKey json object p i sl.node_key valid in
    let same : keyed.node_key ≡ (parse_peer allowed object p).0.node_key =
      ground (arith, h, after_disco, after_name, after_endpoint, after_ip) in
    record {
      valid = ground (arith, h, after_disco, after_name, after_endpoint, after_ip);
      allowed_name = ground (arith, h, after_disco, after_name, after_endpoint, after_ip);
      key = record {
        object = found.object;
        value = found.value;
        stands = found.stands;
        read = found.read;
        spelled = subst (Spells (strip_prefix (codes "nodekey:") found.value)) same found.spelled;
      };
    }

put_peer-IsWellFormed :
    (allowed : List Bytes) (json object : Bytes) (ps : Peers)
    → IsPart object json
    → IsWellFormed allowed json ps
    → ps.count < 5
    → IsWellFormed allowed json
        (put_peer ps (parse_peer allowed object (get_or ps.slots ps.count no_peer)))
put_peer-IsWellFormed allowed json object ps i h l =
    let slot = get_or ps.slots ps.count no_peer in
    let old = All-get_or IsSlot ps.count ps.slots no_peer h.slots no_peer-IsSlot in
    let new = parse_peer-IsSlot allowed object slot old in
    let peer = (parse_peer allowed object slot).0 in
    record {
      size = ground (arith, length-set ps.slots ps.count peer, h.size);
      slots = All-set IsSlot ps.count ps.slots peer h.slots new;
      bound = ground (arith);
      counted =
          First-put (IsCounted allowed json) (parse_peer allowed object slot).1 ps.count ps.slots
            peer h.counted (parse_peer-IsCounted allowed json object slot i old);
    }

-- The loop over the "Peers" array keeps the array well formed, whatever the text: there are five
-- slots, the keys fill their arrays and the strings and their NUL fit theirs, at most five peers
-- are counted, and each of these has a node key that the text spells and a hostname that the filter
-- allows.
pub peers_loop-IsWellFormed :
    (fuel : ℕ) (allowed : List Bytes) (json text : Bytes) (ps : Peers)
    → IsPart text json
    → IsWellFormed allowed json ps
    → IsWellFormed allowed json (peers_loop fuel allowed text ps)
unfolding peers_loop
peers_loop-IsWellFormed zero allowed json text ps i h = h
peers_loop-IsWellFormed (suc fuel) allowed json text ps i h =
    elim (Option-cases (memchr b'{' text)) [
      | inl e ↦ subst (IsWellFormed allowed json) (ground (arith, e)) h
      | inr ([], e) ↦ subst (IsWellFormed allowed json) (ground (arith, e)) h
      | inr (brace ∷ inside, e) ↦ elim (Bool-cases (ltb ps.count 5)) [
        | inr f ↦ subst (IsWellFormed allowed json) (ground (arith, e, f)) h
        | inl f ↦
            let object = brace ∷ section b'{' b'}' 1 inside in
            let from = IsPart-trans (brace ∷ inside) text json (memchr-IsPart b'{' text _ e) i in
            let part =
              IsPart-trans object (brace ∷ inside) json
                (brace_section-IsPart brace b'{' b'}' 1 inside) from in
            let next = put_peer ps (parse_peer allowed object (get_or ps.slots ps.count no_peer)) in
            let step = put_peer-IsWellFormed allowed json object ps part h (ltb→lt ps.count 5 f) in
            let rest = drop (length object) (brace ∷ inside) in
            let behind =
              IsPart-trans rest (brace ∷ inside) json (drop-IsPart (length object) (brace ∷ inside))
                from in
            let found : peers_loop fuel allowed rest next ≡ peers_loop (suc fuel) allowed text ps =
              (ground (arith, e, f)) in
            subst (IsWellFormed allowed json) found
              (peers_loop-IsWellFormed fuel allowed json rest next behind step)
      ]
    ]
