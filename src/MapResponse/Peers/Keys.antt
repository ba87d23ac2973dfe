-- ===== src/MapResponse/Peers/Keys.antt =====
-- Where the node key of a peer comes from.
use tailscale_iot.Base.{
  ℕ, suc, zero, ◌+◌, ◌*◌, ◌<◌, ◌≤◌, ◌≡◌, refl, ap, sym, ◌∙◌, ◌⊎◌, [], ◌∷◌, ◌++◌, Bytes, codes, true,
  length, drop, take, arith, some, Option-cases, Bool-cases, inl, inr, subst, append_assoc,
  append-nil, take-append-drop, ◌==◌, drop_length,
}
use tailscale_iot.MapResponse.Extract.{memchr, section, nibble, hex_pairs, hex_decode_to_bytes}
use tailscale_iot.MapResponse.Peers.{Peer, value_of, strip_prefix, parse_key}

-- The bytes stand somewhere in the text.
pub record IsPart (part text : Bytes) : Type 0 where
  pub before : Bytes
  pub after : Bytes
  pub whole : text ≡ before ++ (part ++ after)

pub IsPart-refl : (text : Bytes) → IsPart text text
IsPart-refl text = record { before = []; after = []; whole = sym (append-nil text) }

pub IsPart-trans : (s t u : Bytes) → IsPart s t → IsPart t u → IsPart s u
IsPart-trans s t u g h = record {
  before = h.before ++ g.before;
  after = g.after ++ h.after;
  whole = h.whole ∙ ap (λ (x : Bytes). h.before ++ (x ++ h.after)) g.whole ∙ simp append_assoc;
}

pub drop-IsPart : (n : ℕ) (text : Bytes) → IsPart (drop n text) text
drop-IsPart n text = record {
  before = take n text;
  after = [];
  whole =
      sym (take-append-drop n text)
      ∙ ap (λ (x : Bytes). take n text ++ x) (sym (append-nil (drop n text)));
}

pub memchr-IsPart : (x : ℕ) (text found : Bytes) → memchr x text ≡ some found → IsPart found text
unfolding memchr
memchr-IsPart x [] found h = absurd (ground (arith, h))
memchr-IsPart x (c ∷ text) found h = elim (Bool-cases (c == x)) [
  | inl e ↦ record { before = []; after = []; whole = ground (arith, h, e, append-nil found) }
  | inr e ↦
      let rest = memchr-IsPart x text found (ground (arith, h, e)) in
      record { before = c ∷ rest.before; after = rest.after; whole = ap (◌∷◌ c) rest.whole }
]

section_rest :
    (o k d : ℕ) (text : Bytes)
    → section o k d text ++ drop (length (section o k d text)) text ≡ text
unfolding section
section_rest o k zero text = refl
section_rest o k (suc d) [] = refl
section_rest o k (suc d) (c ∷ text) = ground (
  arith,
  section_rest o k d text,
  section_rest o k (suc d) text,
  section_rest o k (suc (suc d)) text,
)

pub section-IsPart : (o k d : ℕ) (text : Bytes) → IsPart (section o k d text) text
section-IsPart o k d text = record {
  before = [];
  after = drop (length (section o k d text)) text;
  whole = sym (section_rest o k d text);
}

-- A brace in front of a section.
pub brace_section-IsPart :
    (brace o k d : ℕ) (inside : Bytes) → IsPart (brace ∷ section o k d inside) (brace ∷ inside)
brace_section-IsPart brace o k d inside = record {
  before = [];
  after = drop (length (section o k d inside)) inside;
  whole = ap (◌∷◌ brace) (sym (section_rest o k d inside));
}

-- A hexadecimal digit and its value.
abbrev pub IsHexDigit : ℕ → ℕ → Type 0
IsHexDigit c v = ((v < 10) × (c ≡ b'0' + v)) ⊎ ((10 ≤ v) × (v < 16) × ((c ≡ 87 + v) ⊎ (c ≡ 55 + v)))

-- Two digits for each byte.
pub data Spells : Bytes → Bytes → Type 0 where
  end : Spells [] []
  pair :
      {high low b : ℕ} {hex bytes : Bytes} (h l : ℕ)
      → IsHexDigit high h
      → IsHexDigit low l
      → b ≡ h * 16 + l
      → Spells hex bytes
      → Spells (high ∷ low ∷ hex) (b ∷ bytes)

nibble-IsHexDigit : (c v : ℕ) → nibble c ≡ some v → IsHexDigit c v
unfolding nibble
nibble-IsHexDigit c v h = ground (arith, h)

hex_pairs-Spells : (hex bytes : Bytes) → hex_pairs hex ≡ (bytes, true) → Spells hex bytes
unfolding hex_pairs
hex_pairs-Spells [] [] h = Spells.end
hex_pairs-Spells [] (b ∷ bytes) h = absurd (ground (arith, h))
hex_pairs-Spells (c ∷ []) bytes h = absurd (ground (arith, h))
hex_pairs-Spells (high ∷ low ∷ hex) [] h = elim (Option-cases (nibble high)) [
  | inl e ↦ absurd (ground (arith, h, e))
  | inr (v, e) ↦ elim (Option-cases (nibble low)) [
    | inl f ↦ absurd (ground (arith, h, e, f))
    | inr (w, f) ↦ absurd (ground (arith, h, e, f))
  ]
]
hex_pairs-Spells (high ∷ low ∷ hex) (b ∷ bytes) h = elim (Option-cases (nibble high)) [
  | inl e ↦ absurd (ground (arith, h, e))
  | inr (v, e) ↦ elim (Option-cases (nibble low)) [
    | inl f ↦ absurd (ground (arith, h, e, f))
    | inr (w, f) ↦
        let rest : hex_pairs hex ≡ (bytes, true) = ground (arith, h, e, f) in
        Spells.pair v w (nibble-IsHexDigit high v e) (nibble-IsHexDigit low w f)
          (ground (arith, h, e, f)) (hex_pairs-Spells hex bytes rest)
  ]
]

-- The peer's node key is spelled by the value of "Key" in an object that stands in the text.
pub record HasKey (json : Bytes) (p : Peer) : Type 0 where
  pub object : Bytes
  pub value : Bytes
  pub stands : IsPart object json
  pub read : value_of (codes "\"Key\":") object ≡ some value
  pub spelled : Spells (strip_prefix (codes "nodekey:") value) p.node_key

hex_decode_to_bytes-Spells :
    (hex output : Bytes)
    → length output ≡ 32
    → (hex_decode_to_bytes hex output).1 ≡ 32
    → Spells hex (hex_decode_to_bytes hex output).0
unfolding hex_decode_to_bytes
hex_decode_to_bytes-Spells hex output l h =
    let pairs = hex_pairs hex in
    let ok : pairs.1 ≡ true = ground (arith, h, l) in
    let size : length pairs.0 ≡ 32 = ground (arith, h, l) in
    let none_left : drop (length pairs.0) output ≡ [] =
      ap (λ n. drop n output) (size ∙ sym l) ∙ drop_length output in
    let same : (hex_decode_to_bytes hex output).0 ≡ pairs.0 =
      ground (arith, h, l, none_left, append-nil pairs.0) in
    subst (Spells hex) (sym same) (hex_pairs-Spells hex pairs.0 (ground (arith, ok)))

pub parse_key-HasKey :
    (json object : Bytes) (p : Peer)
    → IsPart object json
    → length p.node_key ≡ 32
    → (parse_key object p).valid ≡ true
    → HasKey json (parse_key object p)
unfolding parse_key
parse_key-HasKey json object p i l v = elim (Option-cases (value_of (codes "\"Key\":") object)) [
  | inl e ↦ absurd (ground (arith, e, v))
  | inr (value, e) ↦
      let digits = strip_prefix (codes "nodekey:") value in
      let count : (hex_decode_to_bytes digits p.node_key).1 ≡ 32 = ground (arith, e, v) in
      let same : (hex_decode_to_bytes digits p.node_key).0 ≡ (parse_key object p).node_key =
        ground (arith, e, v) in
      record {
        object = object;
        value = value;
        stands = i;
        read = e;
        spelled = subst (Spells digits) same (hex_decode_to_bytes-Spells digits p.node_key l count);
      }
]
