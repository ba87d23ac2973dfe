-- ===== src/Activation/Bound.antt =====
-- At most one peer is active.
use tailscale_iot.Base.{
  ℕ, zero, suc, ◌+◌, ◌-◌, ◌^◌, ◌<◌, ◌≡◌, refl, ap, sym, ◌∙◌, ◌⊎◌, subst, List, [], ◌∷◌, Bytes, Bool,
  true, false, ◌&&◌, get_elem?, arith, ltb, Option, none, some, Option-cases, Bool-cases, inl, inr,
  equal, equal_iff, equal_refl,
}
use tailscale_iot.Activation.{
  Context, Manager, PeerSession, get_peer, is_active, erase_peer, add_peer, remove_peer, find_lru,
  find_lru_active_peer, deactivate_peer, make_room, activate_peer,
}

-- A session with this address exists, its time of last activity below the largest uint32_t.
abbrev pub IsKnown : Bytes → List PeerSession → Type 0
IsKnown ip sessions =
    (j : ℕ) × (s : PeerSession) × (get_elem? sessions j ≡ some s)
    × (s.tailscale_ip ≡ ip)
    × (s.last_wg_activity < 2 ^ 32 - 1)

-- At most one peer is active, and it has a session.
pub data IsSingle (sessions : List PeerSession) : List Context → Type 0 where
  idle : IsSingle sessions []
  single : {c : Context} → IsKnown c.tailscale_ip sessions → IsSingle sessions (c ∷ [])

is_active-single : (ip : Bytes) (c : Context) → is_active ip (c ∷ []) ≡ equal ip c.tailscale_ip
unfolding get_peer
is_active-single ip c = ground arith

-- An index was found, and it has the property.
abbrev Found : (ℕ → Type 0) → Option ℕ → Type 0
Found P o = (k : ℕ) × (o ≡ some k) × P k

-- The step of the search at a session.
abbrev is_older : Context → PeerSession → ℕ → Bool
is_older c s oldest = is_active s.tailscale_ip (c ∷ []) && ltb s.last_wg_activity oldest

module _ (P : ℕ → Type 0) (c : Context) where
  -- Every session of the active peer, from the index `i` on, is at an index with the property.
  abbrev Covers : ℕ → List PeerSession → Type 0
  Covers i sessions =
      (j : ℕ) (s : PeerSession)
      → get_elem? sessions j ≡ some s
      → s.tailscale_ip ≡ c.tailscale_ip
      → P (i + j)

  Covers-tail :
      (i : ℕ) (s : PeerSession) (sessions : List PeerSession)
      → Covers i (s ∷ sessions)
      → Covers (suc i) sessions
  Covers-tail i s sessions q j t e f = subst P (omega arith) (q (suc j) t e f)

  Covers-head :
      (i oldest : ℕ) (s : PeerSession) (sessions : List PeerSession)
      → Covers i (s ∷ sessions)
      → is_older c s oldest ≡ true
      → P i
  Covers-head i oldest s sessions q h =
      let here : equal s.tailscale_ip c.tailscale_ip ≡ true =
        (ground (arith, h, is_active-single s.tailscale_ip c)) in
      subst P (omega arith) (q 0 s refl ((equal_iff s.tailscale_ip c.tailscale_ip).0 here))

  find_lru_kept-Found :
      (i oldest k : ℕ) (sessions : List PeerSession)
      → P k
      → Covers i sessions
      → Found P (find_lru (c ∷ []) i oldest (some k) sessions)
  unfolding find_lru
  find_lru_kept-Found i oldest k [] p q = (k, refl, p)
  find_lru_kept-Found i oldest k (s ∷ sessions) p q =
      let tail = Covers-tail i s sessions q in
      elim (Bool-cases (is_older c s oldest)) [
        | inl h ↦
            let head = Covers-head i oldest s sessions q h in
            let rest = find_lru_kept-Found (suc i) s.last_wg_activity i sessions head tail in
            subst (Found P) (ground (arith, h)) rest
        | inr h ↦
            let rest = find_lru_kept-Found (suc i) oldest k sessions p tail in
            subst (Found P) (ground (arith, h)) rest
      ]

  find_lru-Found :
      (i oldest j : ℕ) (t : PeerSession) (sessions : List PeerSession)
      → get_elem? sessions j ≡ some t
      → t.tailscale_ip ≡ c.tailscale_ip
      → t.last_wg_activity < oldest
      → Covers i sessions
      → Found P (find_lru (c ∷ []) i oldest none sessions)
  unfolding find_lru
  find_lru-Found i oldest j t [] e f l q = ground (arith, e)
  find_lru-Found i oldest j t (s ∷ sessions) e f l q =
      let tail = Covers-tail i s sessions q in
      elim (Bool-cases (is_older c s oldest)) [
        | inl h ↦
            let head = Covers-head i oldest s sessions q h in
            let rest = find_lru_kept-Found (suc i) s.last_wg_activity i sessions head tail in
            subst (Found P) (ground (arith, h)) rest
        | inr h ↦
            elim j
                as (λ j.
                  get_elem? (s ∷ sessions) j ≡ some t
                  → Found P (find_lru (c ∷ []) i oldest none (s ∷ sessions))) [
                    | zero ↦ λ e. absurd (
                        ground (
                          arith,
                          e,
                          h,
                          f,
                          l,
                          is_active-single s.tailscale_ip c,
                          (equal_iff s.tailscale_ip c.tailscale_ip).1,
                        ))
                    | suc j ↦ λ e.
                        (let rest = find_lru-Found (suc i) oldest j t sessions e f l tail in
                          subst (Found P) (ground (arith, h)) rest)
                  ]
              e
      ]

-- A single active peer makes room.
make_room-single :
    (c : Context) (sessions : List PeerSession) (m : Manager)
    → m.peers ≡ c ∷ []
    → IsKnown c.tailscale_ip sessions
    → (make_room sessions m).peers ≡ []
unfolding make_room deactivate_peer remove_peer get_peer erase_peer
make_room-single c sessions m e (j, t, ej, et, l) =
    let P : ℕ → Type 0 = λ k.
      (s : PeerSession) × (get_elem? sessions k ≡ some s) × (s.tailscale_ip ≡ c.tailscale_ip) in
    let (k, ek, (s, es, f)) =
      find_lru-Found P c 0 (2 ^ 32 - 1) j t sessions ej et l
        (λ j s e f. (s, subst (λ (n : ℕ). get_elem? sessions n ≡ some s) (omega arith) e, f)) in
    ground (arith, e, ek, es, f, (equal_iff s.tailscale_ip c.tailscale_ip).1 f)

make_room-none :
    (sessions : List PeerSession) (m : Manager) → m.peers ≡ [] → make_room sessions m ≡ m
unfolding make_room
make_room-none sessions m e = elim (Option-cases (find_lru_active_peer m sessions)) [
  | inl h ↦ ground (arith, h)
  | inr (i, h) ↦ ground (arith, h, e)
]

-- What an activation leaves, and what it answers: true only if the peer is active.
abbrev pub IsActivated : List PeerSession → Bytes → Manager × Bool → Type 0
IsActivated sessions ip (m, ok) =
    IsSingle sessions m.peers × ((is_active ip m.peers ≡ true) ⊎ (ok ≡ false))

IsActivated-idle :
    (sessions : List PeerSession) (ip : Bytes) (r : Manager × Bool)
    → r.0.peers ≡ []
    → r.1 ≡ false
    → IsActivated sessions ip r
IsActivated-idle sessions ip r e f = (subst (IsSingle sessions) (sym e) IsSingle.idle, inr f)

IsActivated-single :
    (sessions : List PeerSession) (c : Context) (r : Manager × Bool)
    → r.0.peers ≡ c ∷ []
    → IsKnown c.tailscale_ip sessions
    → IsActivated sessions c.tailscale_ip r
IsActivated-single sessions c r e k =
    let here : is_active c.tailscale_ip (c ∷ []) ≡ true =
      (is_active-single c.tailscale_ip c ∙ equal_refl c.tailscale_ip) in
    (
      subst (IsSingle sessions) (sym e) (IsSingle.single k),
      inl (subst (λ (ps : List Context). is_active c.tailscale_ip ps ≡ true) (sym e) here),
    )

abbrev context_of : Bytes → Context
context_of ip = record { tailscale_ip = ip; receiver_index = 0; handshake_established = false }

add_peer-cases :
    (allocated : Bool) (ip : Bytes) (m : Manager)
    → m.peers ≡ []
    → ((add_peer allocated ip m).0.peers ≡ context_of ip ∷ [])
      ⊎ (((add_peer allocated ip m).0.peers ≡ []) × ((add_peer allocated ip m).1 ≡ false))
unfolding add_peer get_peer
add_peer-cases allocated ip m e = ground (arith, e)

add_peer-IsActivated :
    (allocated : Bool) (sessions : List PeerSession) (ip : Bytes) (m : Manager)
    → m.peers ≡ []
    → IsKnown ip sessions
    → IsActivated sessions ip (add_peer allocated ip m)
add_peer-IsActivated allocated sessions ip m e k = elim (add_peer-cases allocated ip m e) [
  | inl f ↦ IsActivated-single sessions (context_of ip) (add_peer allocated ip m) f k
  | inr (f, g) ↦ IsActivated-idle sessions ip (add_peer allocated ip m) f g
]

IsSingle-cases :
    (sessions : List PeerSession) (peers : List Context)
    → IsSingle sessions peers
    → (peers ≡ []) ⊎ ((c : Context) × (peers ≡ c ∷ []) × IsKnown c.tailscale_ip sessions)
IsSingle-cases sessions peers IsSingle.idle = inl refl
IsSingle-cases sessions peers (IsSingle.single {c} k) = inr (c, refl, k)

-- If at most one peer is active before an activation, at most one is active after it, whether the
-- WireGuard library can allocate the new peer or not, and the answer is false unless the peer that
-- was asked for is active. (An active peer has a session, whose time of last activity, like
-- that of the new peer, is not the largest uint32_t; the new invariant says the same again.)
pub activate_peer-IsActivated :
    (allocated : Bool) (i : ℕ) (s : PeerSession) (sessions : List PeerSession) (m : Manager)
    → get_elem? sessions i ≡ some s
    → s.last_wg_activity < 2 ^ 32 - 1
    → IsSingle sessions m.peers
    → IsActivated sessions s.tailscale_ip (activate_peer allocated i sessions m)
unfolding activate_peer get_peer
activate_peer-IsActivated allocated i s sessions m e l h =
    let known : IsKnown s.tailscale_ip sessions = (i, s, e, refl, l) in
    let roomy = make_room sessions m in
    let added = add_peer-IsActivated allocated sessions s.tailscale_ip roomy in
    elim (IsSingle-cases sessions m.peers h) [
      | inl f ↦
          let room : roomy.peers ≡ [] =
            ap (λ (m : Manager). m.peers) (make_room-none sessions m f) ∙ f in
          let eq : add_peer allocated s.tailscale_ip roomy ≡ activate_peer allocated i sessions m =
            (ground (arith, e, f)) in
          subst (IsActivated sessions s.tailscale_ip) eq (added room known)
      | inr (c, f, k) ↦ elim (Bool-cases (equal s.tailscale_ip c.tailscale_ip)) [
        | inl g ↦
            let same = (equal_iff s.tailscale_ip c.tailscale_ip).0 g in
            let eq : (m, true) ≡ activate_peer allocated i sessions m = ground (arith, e, f, g) in
            subst (IsActivated sessions s.tailscale_ip) eq (
              subst (λ (ip : Bytes). IsActivated sessions ip (m, true)) (sym same)
                (IsActivated-single sessions c (m, true) f k))
        | inr g ↦
            let eq : add_peer allocated s.tailscale_ip roomy
                ≡ activate_peer allocated i sessions m =
              (ground (arith, e, f, g)) in
            subst (IsActivated sessions s.tailscale_ip) eq
              (added (make_room-single c sessions m f k) known)
      ]
    ]
