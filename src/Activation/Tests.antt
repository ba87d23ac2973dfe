-- ===== src/Activation/Tests.antt =====
-- Runs of the activation of peers, and the theorem at a concrete input.
use tailscale_iot.Base.{◌≡◌, refl, List, [], ◌∷◌, codes, true, false, equal, arith, map}
use tailscale_iot.Activation.{
  Context, Manager, PeerSession, get_peer, erase_peer, erase_receiver, add_peer, remove_peer,
  find_lru, deactivate_peer, make_room, activate_peer,
}
use tailscale_iot.Activation.Bound.{IsSingle, IsActivated, activate_peer-IsActivated}

abbrev sessions : List PeerSession
sessions =
    record { tailscale_ip = codes "100.64.0.2"; last_wg_activity = 500 }
    ∷ record { tailscale_ip = codes "100.64.0.3"; last_wg_activity = 900 }
    ∷ []

abbrev context : Context
context = record {
  tailscale_ip = codes "100.64.0.2";
  receiver_index = 7;
  handshake_established = true;
}

abbrev manager : Manager
manager = record {
  initialized = true;
  peers = context ∷ [];
  receivers = (7, codes "100.64.0.2") ∷ [];
}

-- The second peer replaces the first.
replaced :
    (map (λ (c : Context). c.tailscale_ip) (activate_peer true 1 sessions manager).0.peers
      ≡ codes "100.64.0.3" ∷ [])
    × ((activate_peer true 1 sessions manager).0.receivers ≡ [])
unfolding activate_peer make_room find_lru deactivate_peer remove_peer add_peer get_peer erase_peer
    equal erase_receiver
replaced = (refl, refl)

-- If the library fails, the first peer is lost all the same.
lost :
    ((activate_peer false 1 sessions manager).0.peers ≡ [])
    × ((activate_peer false 1 sessions manager).1 ≡ false)
unfolding activate_peer make_room find_lru deactivate_peer remove_peer add_peer get_peer erase_peer
    equal
lost = (refl, refl)

activate_peer-IsActivated_example :
    IsActivated sessions (codes "100.64.0.3") (activate_peer true 1 sessions manager)
activate_peer-IsActivated_example =
    activate_peer-IsActivated true 1
      (record { tailscale_ip = codes "100.64.0.3"; last_wg_activity = 900 }) sessions manager refl
      (omega arith)
      (IsSingle.single (
        0,
        (record { tailscale_ip = codes "100.64.0.2"; last_wg_activity = 500 }),
        refl,
        refl,
        omega arith,
      ))
