-- ===== src/Tcp/Table/Distinct.antt =====
-- No two open connections of the same peer and port, and what keeps it so.
use tailscale_iot.Base.{
  ℕ, zero, suc, ◌≤◌, ◌≡◌, refl, sym, ◌∙◌, subst, List, [], ◌∷◌, ◌++◌, Bool, true, false, not, ◌&&◌,
  length, set, get_elem?, All, arith, none, some, Option-cases, Bool-cases, inl, inr,
  some-injective, ◌⊎◌,
}
use tailscale_iot.Tcp.Connection.{TcpConnection}
use tailscale_iot.Tcp.Table.{is_closed, is_from, find_connection, remove_closed}

-- Two open connections from the same address and port.
abbrev pub clash : TcpConnection → TcpConnection → Bool
clash c d = is_from c.src_ip c.src_port d && not (is_closed c)

abbrev pub IsDistinct : List TcpConnection → Type 0
IsDistinct [] = Unit
IsDistinct (c ∷ conns) = All (λ d. clash c d ≡ false) conns × IsDistinct conns

-- A connection that may take another's place.
abbrev pub IsHeir : TcpConnection → TcpConnection → Type 0
IsHeir c d =
    (d.src_ip ≡ c.src_ip)
    × (d.src_port ≡ c.src_port)
    × ((is_closed c ≡ false) ⊎ (is_closed d ≡ true))

clash-heir : (c d e : TcpConnection) → IsHeir c d → clash c e ≡ false → clash d e ≡ false
clash-heir c d e h n = ground (arith, h)

clash_heir : (c d e : TcpConnection) → IsHeir c d → clash e c ≡ false → clash e d ≡ false
clash_heir c d e h n = ground (arith, h)

All-heir :
    (e : TcpConnection) (conns : List TcpConnection) (i : ℕ) (c d : TcpConnection)
    → get_elem? conns i ≡ some c
    → IsHeir c d
    → All (λ x. clash e x ≡ false) conns
    → All (λ x. clash e x ≡ false) (set conns i d)
All-heir e [] i c d g h a = a
All-heir e (x ∷ conns) zero c d g h a = (
  clash_heir x d e (subst (λ (c : TcpConnection). IsHeir c d) (sym (some-injective x c g)) h) a.0,
  a.1,
)
All-heir e (x ∷ conns) (suc i) c d g h a = (a.0, All-heir e conns i c d g h a.1)

clashes-heir :
    (c d : TcpConnection) (conns : List TcpConnection)
    → IsHeir c d
    → All (λ x. clash c x ≡ false) conns
    → All (λ x. clash d x ≡ false) conns
clashes-heir c d [] h a = a
clashes-heir c d (x ∷ conns) h a = (clash-heir c d x h a.0, clashes-heir c d conns h a.1)

pub set-IsDistinct :
    (conns : List TcpConnection) (i : ℕ) (c d : TcpConnection)
    → get_elem? conns i ≡ some c
    → IsHeir c d
    → IsDistinct conns
    → IsDistinct (set conns i d)
set-IsDistinct [] i c d g h a = a
set-IsDistinct (x ∷ conns) zero c d g h a = (
  clashes-heir x d conns (subst (λ (c : TcpConnection). IsHeir c d) (sym (some-injective x c g)) h)
      a.0,
  a.1,
)
set-IsDistinct (x ∷ conns) (suc i) c d g h a =
    (All-heir x conns i c d g h a.0, set-IsDistinct conns i c d g h a.1)

-- A search finds an open connection of the peer, at its index, or there is none.
pub find_connection_found :
    (ip port i : ℕ) (c : TcpConnection) (conns : List TcpConnection)
    → find_connection ip port conns ≡ some (i, c)
    → (get_elem? conns i ≡ some c) × (is_closed c ≡ false)
unfolding find_connection
find_connection_found ip port i c [] h = ground (arith, h)
find_connection_found ip port i c (x ∷ conns) h = elim (Bool-cases (is_from ip port x)) [
  | inl e ↦
      let at : (0, x) ≡ (i, c) = some-injective _ _ (sym (ground (arith, e)) ∙ h) in
      subst
        (λ (p : ℕ × TcpConnection).
          (get_elem? (x ∷ conns) p.0 ≡ some p.1) × (is_closed p.1 ≡ false))
        at (refl, ground (arith, e))
  | inr e ↦ elim (Option-cases (find_connection ip port conns)) [
    | inl f ↦ absurd (ground (arith, h, e, f))
    | inr ((j, d), f) ↦
        let at : (suc j, d) ≡ (i, c) = some-injective _ _ (sym (ground (arith, e, f)) ∙ h) in
        subst
          (λ (p : ℕ × TcpConnection).
            (get_elem? (x ∷ conns) p.0 ≡ some p.1) × (is_closed p.1 ≡ false))
          at (find_connection_found ip port j d conns f)
  ]
]

pub find_connection-none :
    (ip port : ℕ) (conns : List TcpConnection)
    → find_connection ip port conns ≡ none
    → All (λ c. is_from ip port c ≡ false) conns
unfolding find_connection
find_connection-none ip port [] h = _
find_connection-none ip port (x ∷ conns) h = elim (Option-cases (find_connection ip port conns)) [
  | inr ((i, c), e) ↦ absurd (ground (arith, h, e))
  | inl e ↦ (ground (arith, h, e), find_connection-none ip port conns e)
]

-- A connection of a new peer at the end.
append-apart :
    (c x : TcpConnection) (conns : List TcpConnection)
    → clash x c ≡ false
    → All (λ d. clash x d ≡ false) conns
    → All (λ d. clash x d ≡ false) (conns ++ c ∷ [])
append-apart c x [] h a = (h, _)
append-apart c x (y ∷ conns) h a = (a.0, append-apart c x conns h a.1)

pub append-IsDistinct :
    (c : TcpConnection) (conns : List TcpConnection)
    → All (λ d. is_from c.src_ip c.src_port d ≡ false) conns
    → IsDistinct conns
    → IsDistinct (conns ++ c ∷ [])
append-IsDistinct c [] n d = (_, _)
append-IsDistinct c (x ∷ conns) n d =
    (append-apart c x conns (ground (arith, n.0)) d.0, append-IsDistinct c conns n.1 d.1)

-- Erasing keeps the rest apart.
remove_closed-cases :
    (c : TcpConnection) (conns : List TcpConnection)
    → (remove_closed (c ∷ conns) ≡ remove_closed conns)
      ⊎ (remove_closed (c ∷ conns) ≡ c ∷ remove_closed conns)
unfolding remove_closed
remove_closed-cases c conns = ground arith

remove_closed-apart :
    (x : TcpConnection) (conns : List TcpConnection)
    → All (λ d. clash x d ≡ false) conns
    → All (λ d. clash x d ≡ false) (remove_closed conns)
unfolding remove_closed
remove_closed-apart x [] a = a
remove_closed-apart x (c ∷ conns) a = elim (remove_closed-cases c conns) [
  | inl e ↦ subst (All (λ d. clash x d ≡ false)) (sym e) (remove_closed-apart x conns a.1)
  | inr e ↦ subst (All (λ d. clash x d ≡ false)) (sym e) (a.0, remove_closed-apart x conns a.1)
]

pub remove_closed-IsDistinct :
    (conns : List TcpConnection) → IsDistinct conns → IsDistinct (remove_closed conns)
unfolding remove_closed
remove_closed-IsDistinct [] d = d
remove_closed-IsDistinct (c ∷ conns) d = elim (remove_closed-cases c conns) [
  | inl e ↦ subst IsDistinct (sym e) (remove_closed-IsDistinct conns d.1)
  | inr e ↦
      subst IsDistinct (sym e) (remove_closed-apart c conns d.0, remove_closed-IsDistinct conns d.1)
]

pub length-remove_closed :
    (conns : List TcpConnection) → length (remove_closed conns) ≤ length conns
unfolding remove_closed
length-remove_closed [] = omega arith
length-remove_closed (c ∷ conns) = ground (arith, length-remove_closed conns)
