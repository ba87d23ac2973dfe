-- ===== src/MapResponse/Extract/Quoted.antt =====
-- Reading a quoted value.
use tailscale_iot.Base.{ℕ, ◌≡◌, ◌≢◌, [], ◌∷◌, ◌++◌, Bytes, All, arith, some}
use tailscale_iot.MapResponse.Extract.{extract_quoted, to_quote, memchr}

-- The text of a JSON string in which no backslash is escaped.
pub data Value : Bytes → Type 0 where
  end : Value []
  plain : {c : ℕ} {text : Bytes} → c ≢ b'"' → c ≢ b'\\' → Value text → Value (c ∷ text)
  escape : {c : ℕ} {text : Bytes} → c ≢ b'\\' → Value text → Value (b'\\' ∷ c ∷ text)

to_quote-Value :
    (previous : ℕ) (text rest : Bytes)
    → previous ≢ b'\\'
    → Value text
    → to_quote previous (text ++ b'"' ∷ rest) ≡ some (text, rest)
unfolding to_quote
to_quote-Value p text rest h Value.end = ground arith
to_quote-Value p _ rest h (Value.plain {c} {text} q b v) =
    ground (arith, to_quote-Value c text rest b v)
to_quote-Value p _ rest h (Value.escape {c} {text} b v) =
    ground (arith, to_quote-Value c text rest b v)

memchr-append :
    (x : ℕ) (space rest : Bytes)
    → All (λ c. c ≢ x) space
    → memchr x (space ++ x ∷ rest) ≡ some (x ∷ rest)
unfolding memchr
memchr-append x [] rest h = ground arith
memchr-append x (c ∷ space) rest h = ground (arith, memchr-append x space rest h.1)

-- Behind anything without a quote, a JSON string in which no backslash is escaped is read whole,
-- its escape sequences as they stand, and the text behind its closing quote is left.
pub extract_quoted-Value :
    (space text rest : Bytes)
    → All (λ c. c ≢ b'"') space
    → Value text
    → extract_quoted (space ++ b'"' ∷ (text ++ b'"' ∷ rest)) ≡ some (text, rest)
unfolding extract_quoted
extract_quoted-Value space text rest h v = ground (
  arith,
  memchr-append b'"' space (text ++ b'"' ∷ rest) h,
  to_quote-Value b'"' text rest (omega arith) v,
)

to_quote-escaped :
    (previous : ℕ) (text rest : Bytes)
    → previous ≢ b'\\'
    → Value text
    → to_quote previous (text ++ b'\\' ∷ b'\\' ∷ b'"' ∷ b',' ∷ b'"' ∷ rest)
      ≡ some (text ++ b'\\' ∷ b'\\' ∷ b'"' ∷ b',' ∷ [], rest)
unfolding to_quote
to_quote-escaped p text rest h Value.end = ground arith
to_quote-escaped p _ rest h (Value.plain {c} {text} q b v) =
    ground (arith, to_quote-escaped c text rest b v)
to_quote-escaped p _ rest h (Value.escape {c} {text} b v) =
    ground (arith, to_quote-escaped c text rest b v)

-- A JSON string that ends in an escaped backslash is not closed by its quote: the value runs on
-- to the next quote of the text, here the one that opens the key behind it.
pub extract_quoted_escaped_backslash :
    (text rest : Bytes)
    → Value text
    → extract_quoted (b'"' ∷ (text ++ b'\\' ∷ b'\\' ∷ b'"' ∷ b',' ∷ b'"' ∷ rest))
      ≡ some (text ++ b'\\' ∷ b'\\' ∷ b'"' ∷ b',' ∷ [], rest)
unfolding extract_quoted memchr
extract_quoted_escaped_backslash text rest v = to_quote-escaped b'"' text rest (omega arith) v
