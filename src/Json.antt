-- ===== src/Json.antt =====
-- JSON text, as the components that scan it without a parser see it: which quotes and braces match.
use tailscale_iot.Base.{◌≡◌, ◌≢◌, ℕ, [], ◌∷◌, ◌++◌, Bytes}

-- What stands between the quotes of a JSON string: escapes are pairs.
pub data Quoted : Bytes → Type 0 where
  end : Quoted []
  plain : {c : ℕ} {s : Bytes} → c ≢ b'"' → c ≢ b'\\' → Quoted s → Quoted (c ∷ s)
  escape : {c : ℕ} {s : Bytes} → Quoted s → Quoted (b'\\' ∷ c ∷ s)

-- Text in which strings are closed and braces match, such as what stands inside an object.
pub data Balanced : Bytes → Type 0 where
  end : Balanced []
  other :
      {c : ℕ} {s : Bytes}
      → c ≢ b'"'
      → c ≢ b'\\'
      → c ≢ b'{'
      → c ≢ b'}'
      → Balanced s
      → Balanced (c ∷ s)
  string : {q s t : Bytes} → Quoted q → Balanced s → t ≡ b'"' ∷ q ++ b'"' ∷ s → Balanced t
  object : {b s t : Bytes} → Balanced b → Balanced s → t ≡ b'{' ∷ b ++ b'}' ∷ s → Balanced t
