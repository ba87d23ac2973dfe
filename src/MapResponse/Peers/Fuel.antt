-- ===== src/MapResponse/Peers/Fuel.antt =====
-- The loops over arrays come to an end.
use tailscale_iot.Base.{
  ℕ, zero, suc, ◌≤◌, ◌≡◌, refl, List, [], ◌∷◌, Bytes, length, drop, get_or, arith, none, some,
  Option-cases, inl, inr, length-drop,
}
use tailscale_iot.MapResponse.Extract.{memchr, section}
use tailscale_iot.MapResponse.Peers.{no_peer, Peers, parse_peer, peers_loop, put_peer}

memchr-shorter :
    (x : ℕ) (text found : Bytes) → memchr x text ≡ some found → length found ≤ length text
unfolding memchr
memchr-shorter x [] found e = ground arith
memchr-shorter x (c ∷ text) found e = elim (Option-cases (memchr x text)) [
  | inl f ↦ ground (arith, e, f)
  | inr (rest, f) ↦ ground (arith, e, f, memchr-shorter x text rest f)
]

memchr_nil : (x : ℕ) → memchr x [] ≡ none
unfolding memchr
memchr_nil x = refl

-- The loop over the "Peers" array ends by itself: with as much fuel as the text has bytes, more
-- fuel makes no difference.
pub peers_loop-fuel :
    (f g : ℕ) (allowed : List Bytes) (text : Bytes) (ps : Peers)
    → length text ≤ f
    → length text ≤ g
    → peers_loop f allowed text ps ≡ peers_loop g allowed text ps
unfolding peers_loop
peers_loop-fuel zero zero allowed text ps hf hg = refl
peers_loop-fuel zero (suc g) allowed [] ps hf hg = ground (arith, memchr_nil b'{')
peers_loop-fuel zero (suc g) allowed (c ∷ text) ps hf hg = absurd (omega arith)
peers_loop-fuel (suc f) zero allowed [] ps hf hg = ground (arith, memchr_nil b'{')
peers_loop-fuel (suc f) zero allowed (c ∷ text) ps hf hg = absurd (omega arith)
peers_loop-fuel (suc f) (suc g) allowed text ps hf hg = elim (Option-cases (memchr b'{' text)) [
  | inl e ↦ ground (arith, e)
  | inr ([], e) ↦ ground (arith, e)
  | inr (brace ∷ inside, e) ↦
      let object = brace ∷ section b'{' b'}' 1 inside in
      let next = put_peer ps (parse_peer allowed object (get_or ps.slots ps.count no_peer)) in
      let shorter = memchr-shorter b'{' text (brace ∷ inside) e in
      let less = length-drop (length object) (brace ∷ inside) in
      ground (
        arith,
        e,
        peers_loop-fuel f g allowed (drop (length object) (brace ∷ inside)) next (omega arith)
            (omega arith),
      )
]
