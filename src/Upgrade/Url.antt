-- ===== src/Upgrade/Url.antt =====
-- The control URL: what is connected to, and the port.
use tailscale_iot.Base.{
  ◌≡◌, ap, sym, ◌⊎◌, inl, inr, [], ◌∷◌, ◌++◌, ◌∙◌, Bytes, codes, true, arith, find, find-parts,
  starts_with, append_assoc, append-nil, Option-cases, drop,
}
use tailscale_iot.Upgrade.{Upgrade, parse_url, split_path, default_path, uri}

-- The authority and the path are the rest of the URL, or the path is the default one.
split_path-parts :
    (rest : Bytes)
    → ((split_path rest).0 ++ (split_path rest).1 ≡ rest)
      ⊎ ((split_path rest).0 ++ (split_path rest).1 ≡ rest ++ default_path)
unfolding split_path
split_path-parts rest = elim (Option-cases (find (b'/' ∷ []) rest)) [
  | inl e ↦ inr (ground (arith, e))
  | inr ((a, b), e) ↦ inl (ground (arith, e, find-parts (b'/' ∷ []) rest a b e))
]

slashes-drop : (b : Bytes) → starts_with (codes "//") b ≡ true → codes "//" ++ drop 2 b ≡ b
unfolding starts_with
slashes-drop [] h = ground arith
slashes-drop (x ∷ []) h = ground arith
slashes-drop (x ∷ y ∷ b) h = ground (arith, h)

rejoin :
    (a b auth path more : Bytes)
    → starts_with (codes "//") b ≡ true
    → auth ++ path ≡ drop 2 b ++ more
    → (a ++ codes "//") ++ auth ++ path ≡ (a ++ b) ++ more
rejoin a b auth path more s e =
    let joined : (a ++ codes "//") ++ auth ++ path ≡ a ++ (codes "//" ++ (auth ++ path)) =
      (simp append_assoc) in
    let parts : a ++ (codes "//" ++ (drop 2 b ++ more)) ≡ a ++ ((codes "//" ++ drop 2 b) ++ more) =
      (simp append_assoc) in
    joined
    ∙ ap (λ (t : Bytes). a ++ (codes "//" ++ t)) e
    ∙ parts
    ∙ ap (λ (t : Bytes). a ++ (t ++ more)) (slashes-drop b s)
    ∙ sym (append_assoc a b more)

-- Whatever the URL, if it is accepted the device connects to the URL itself, or to the URL with
-- `/ts2021` behind it.
pub parse_url-uri :
    (u : Upgrade) (url : Bytes)
    → (parse_url u url).1 ≡ true
    → (uri (parse_url u url).0 ≡ url) ⊎ (uri (parse_url u url).0 ≡ url ++ default_path)
unfolding parse_url
parse_url-uri u url h = elim (Option-cases (find (codes "//") url)) [
  | inl e ↦ ground (arith, e)
  | inr ((a, b), e) ↦
      let (whole, slashes) = find-parts (codes "//") url a b e in
      let auth = (split_path (drop 2 b)).0 in
      let path = (split_path (drop 2 b)).1 in
      elim (split_path-parts (drop 2 b)) [
        | inl f ↦ ground (
          arith,
          e,
          f,
          whole,
          rejoin a b auth path [] slashes (f ∙ sym (append-nil (drop 2 b))),
          append-nil (a ++ b),
        )
        | inr f ↦ ground (arith, e, f, whole, rejoin a b auth path default_path slashes f)
      ]
]
