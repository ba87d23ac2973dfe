-- ===== src/Activation.antt =====
-- Which peer has a WireGuard session: `activate_peer_wireguard_`, `deactivate_peer_wireguard_`,
-- `find_lru_active_wireguard_peer_` and `count_active_wireguard_peers_` of
-- components/tailscale/tailscale.cpp on the table of
-- components/tailscale/wireguard_device_manager.cpp.
-- The table `peers_`, a map, is an association list. The WireGuard library stands outside:
-- whether it can allocate and initialise a peer is an argument.
pub mod Bound
mod Tests
use tailscale_iot.Base.{
  ℕ, zero, suc, ◌+◌, ◌-◌, ◌^◌, List, [], ◌∷◌, Bytes, Bool, true, false, not, ◌&&◌, ◌||◌, length,
  get_elem?, if◌then◌else◌, ltb, leb, ◌==◌, Option, none, some, equal,
}

-- `PeerContext`, without the pointer into the library.
pub record Context : Type 0 where
  pub tailscale_ip : Bytes
  pub receiver_index : ℕ
  pub handshake_established : Bool

-- `peers_`, `receiver_to_peer_` and whether the device is initialised.
pub record Manager : Type 0 where
  pub initialized : Bool
  pub peers : List Context
  pub receivers : List (ℕ × Bytes)

-- Of `PeerSession` what the activation reads.
pub record PeerSession : Type 0 where
  pub tailscale_ip : Bytes
  pub last_wg_activity : ℕ

-- `MAX_ACTIVE_WIREGUARD_PEERS`.
abbrev pub max_active : ℕ
max_active = 1

unfoldable pub get_peer : Bytes → List Context → Option Context
get_peer ip [] = none
get_peer ip (c ∷ peers) =
    let rest = get_peer ip peers in if equal ip c.tailscale_ip then some c else rest

abbrev pub is_active : Bytes → List Context → Bool
is_active ip peers = elim (get_peer ip peers) [ none ↦ false | some _ ↦ true ]

unfoldable pub erase_peer : Bytes → List Context → List Context
erase_peer ip [] = []
erase_peer ip (c ∷ peers) =
    let rest = c ∷ erase_peer ip peers in if equal ip c.tailscale_ip then peers else rest

unfoldable pub erase_receiver : ℕ → List (ℕ × Bytes) → List (ℕ × Bytes)
erase_receiver i [] = []
erase_receiver i ((j, ip) ∷ receivers) =
    let rest = erase_receiver i receivers in if i == j then receivers else (j, ip) ∷ rest

-- `add_peer` with a key; `allocated` is what the library answers.
unfoldable pub add_peer : Bool → Bytes → Manager → Manager × Bool
add_peer allocated ip m =
    let context : Context = record {
      tailscale_ip = ip;
      receiver_index = 0;
      handshake_established = false;
    } in
    if not m.initialized
    then (m, false)
    else if is_active ip m.peers
    then (m, true)
    else if allocated
    then (record m { peers = context ∷ m.peers }, true)
    else (m, false)

unfoldable pub remove_peer : Bytes → Manager → Manager
remove_peer ip m = elim (get_peer ip m.peers) [
  | none ↦ m
  | some c ↦ record m {
    peers = erase_peer ip m.peers;
    receivers =
        if c.receiver_index == 0 then m.receivers else erase_receiver c.receiver_index m.receivers;
  }
]

-- The loop from the index `i` on; `SIZE_MAX` is `none`.
unfoldable pub find_lru : List Context → ℕ → ℕ → Option ℕ → List PeerSession → Option ℕ
find_lru peers i oldest lru [] = lru
find_lru peers i oldest lru (s ∷ sessions) =
    let taken = find_lru peers (suc i) s.last_wg_activity (some i) sessions in
    let skipped = find_lru peers (suc i) oldest lru sessions in
    if is_active s.tailscale_ip peers && ltb s.last_wg_activity oldest then taken else skipped

abbrev pub find_lru_active_peer : Manager → List PeerSession → Option ℕ
find_lru_active_peer m sessions = find_lru m.peers 0 (2 ^ 32 - 1) none sessions

unfoldable pub deactivate_peer : ℕ → List PeerSession → Manager → Manager
deactivate_peer i sessions m = elim (get_elem? sessions i) [
  | none ↦ m
  | some s ↦ remove_peer s.tailscale_ip m
]

-- The eviction before an activation.
unfoldable pub make_room : List PeerSession → Manager → Manager
make_room sessions m = elim (find_lru_active_peer m sessions) [
  | none ↦ m
  | some i ↦ if leb max_active (length m.peers) then deactivate_peer i sessions m else m
]

unfoldable pub activate_peer : Bool → ℕ → List PeerSession → Manager → Manager × Bool
activate_peer allocated i sessions m = elim (get_elem? sessions i) [
  | none ↦ (m, false)
  | some s ↦
      if is_active s.tailscale_ip m.peers
      then (m, true)
      else add_peer allocated s.tailscale_ip (make_room sessions m)
]
