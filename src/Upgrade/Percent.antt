-- ===== src/Upgrade/Percent.antt =====
-- Percent-encoding of the handshake in the request's query.
use tailscale_iot.Base.{
  ℕ, ◌+◌, ◌-◌, ◌*◌, ◌≡◌, refl, [], ◌∷◌, Bytes, true, false, All, IsByte, arith, if◌then◌else◌, leb,
  ◌==◌, Bool-cases, inl, inr, ◌||◌,
}
use tailscale_iot.Upgrade.{url_encode, is_unreserved}

-- The value of a hexadecimal digit.
abbrev pub hex_value : ℕ → ℕ
hex_value c = if leb c b'9' then c - b'0' else c - 55

-- Percent-decoding, as the server does it.
unfoldable pub url_decode : Bytes → Bytes
url_decode [] = []
url_decode (c ∷ []) = c ∷ []
url_decode (c ∷ d ∷ []) = c ∷ d ∷ []
url_decode (c ∷ h ∷ l ∷ text) =
    let escaped = url_decode text in
    let plain = url_decode (h ∷ l ∷ text) in
    if c == b'%' then (hex_value h * 16 + hex_value l) ∷ escaped else c ∷ plain

url_decode-plain :
    (c : ℕ) (text : Bytes) → (c == b'%') ≡ false → url_decode (c ∷ text) ≡ c ∷ url_decode text
unfolding url_decode
url_decode-plain c [] h = refl
url_decode-plain c (d ∷ []) h = refl
url_decode-plain c (d ∷ e ∷ text) h = ground (arith, h)

-- The server recovers any byte string that the device puts into the query.
pub url_decode-url_encode :
    (value : Bytes) → All IsByte value → url_decode (url_encode value) ≡ value
unfolding url_encode url_decode
url_decode-url_encode [] h = refl
url_decode-url_encode (c ∷ value) h = elim (Bool-cases (is_unreserved c)) [
  | inl e ↦
      ground (arith, e, url_decode-plain c (url_encode value), url_decode-url_encode value h.1)
  | inr e ↦ ground (arith, e, url_decode-url_encode value h.1)
]

-- Nothing in the encoding needs escaping again but its percent signs.
pub url_encode-IsSafe :
    (value : Bytes)
    → All IsByte value
    → All (λ c. (is_unreserved c || c == b'%') ≡ true) (url_encode value)
unfolding url_encode
url_encode-IsSafe [] h = _
url_encode-IsSafe (c ∷ value) h = elim (Bool-cases (is_unreserved c)) [
  | inl e ↦ ground (arith, e, url_encode-IsSafe value h.1)
  | inr e ↦ ground (arith, e, url_encode-IsSafe value h.1)
]
