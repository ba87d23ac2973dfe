-- ===== src/JsonStream/Capture.antt =====
-- The text of a JSON value, and what `feed` makes of it: a Node member comes out byte for byte.
use tailscale_iot.Base.{
  ℕ, suc, ◌+◌, ◌<◌, ◌≡◌, ◌≢◌, ap, true, false, [], ◌∷◌, ◌++◌, append_assoc, append-nil, length,
  length-append, Bytes, pos, arith,
}
use tailscale_iot.Json.{Quoted, Balanced, end, plain, escape, other, string, object}
use tailscale_iot.JsonStream.{
  Parser, in_value, put, keep, string_byte, open_quote, colon, close_brace, comma, step, feed,
}

-- The parser while it copies a value, `d` braces inside the Node object.
pub record Copies (cap : ℕ) (d : ℕ) (p : Parser) : Type 0 where
  pub state : p.state ≡ in_value
  pub outside : p.in_string ≡ false
  pub unescaped : p.escape_next ≡ false
  pub capturing : p.capturing ≡ true
  pub outer : p.capture_depth ≡ pos 2
  pub depth : p.brace_depth ≡ pos (2 + d)

abbrev pub copied : Parser → Bytes → Parser
copied p s = record p { output = p.output ++ s }

pub put-room :
    (cap : ℕ) (out : Bytes) (c : ℕ) → length out + 1 < cap → put cap out c ≡ out ++ c ∷ []
unfolding put
put-room (suc cap) out c h = ground arith
put-room _ out c h = ground arith

feed-Quoted :
    {q : Bytes} (cap : ℕ) (p : Parser) (rest : Bytes)
    → Quoted q
    → p.state ≡ in_value
    → p.in_string ≡ true
    → p.escape_next ≡ false
    → p.capturing ≡ true
    → length p.output + length q + 1 < cap
    → feed cap p (q ++ b'"' ∷ rest)
      ≡ feed cap (record (copied p (q ++ b'"' ∷ [])) { in_string = false }) rest
unfolding feed step string_byte keep
feed-Quoted cap p rest end s i e c h = ground (arith, put-room cap p.output b'"')
feed-Quoted cap p rest (plain {c = x} {s = t} a b q) s i e c h = ground (
  arith,
  put-room cap p.output x,
  append_assoc p.output (x ∷ []) (t ++ b'"' ∷ []),
  length-append p.output (x ∷ []),
  feed-Quoted cap (copied p (x ∷ [])) rest q,
)
feed-Quoted cap p rest (escape {c = x} {s = t} q) s i e c h = ground (
  arith,
  put-room cap p.output b'\\',
  put-room cap (p.output ++ b'\\' ∷ []) x,
  append_assoc p.output (b'\\' ∷ []) (x ∷ []),
  append_assoc p.output (b'\\' ∷ x ∷ []) (t ++ b'"' ∷ []),
  length-append p.output (b'\\' ∷ []),
  length-append p.output (b'\\' ∷ x ∷ []),
  feed-Quoted cap (copied p (b'\\' ∷ x ∷ [])) rest q,
)

-- One byte that is neither a quote nor a brace.
feed-other :
    (cap c d : ℕ) (p : Parser) (rest : Bytes)
    → c ≢ b'"'
    → c ≢ b'{'
    → c ≢ b'}'
    → Copies cap d p
    → length p.output + 1 < cap
    → feed cap p (c ∷ rest) ≡ feed cap (copied p (c ∷ [])) rest
unfolding feed step keep colon comma
feed-other cap c d p rest q o x k h = ground (arith, put-room cap p.output c)

feed-open_quote :
    (cap d : ℕ) (p : Parser) (rest : Bytes)
    → Copies cap d p
    → length p.output + 1 < cap
    → feed cap p (b'"' ∷ rest) ≡ feed cap (record (copied p (b'"' ∷ [])) { in_string = true }) rest
unfolding feed step keep open_quote
feed-open_quote cap d p rest k h = ground (arith, put-room cap p.output b'"')

feed-string :
    {q : Bytes} (cap d : ℕ) (p : Parser) (rest : Bytes)
    → Quoted q
    → Copies cap d p
    → length p.output + length q + 2 < cap
    → feed cap p (b'"' ∷ q ++ b'"' ∷ rest) ≡ feed cap (copied p (b'"' ∷ q ++ b'"' ∷ [])) rest
feed-string {q} cap d p rest w k h = ground (
  arith,
  feed-open_quote cap d p (q ++ b'"' ∷ rest) k,
  append_assoc p.output (b'"' ∷ []) (q ++ b'"' ∷ []),
  length-append p.output (b'"' ∷ []),
  feed-Quoted cap (record (copied p (b'"' ∷ [])) { in_string = true }) rest w,
)

feed-open_brace :
    (cap d : ℕ) (p : Parser) (rest : Bytes)
    → Copies cap d p
    → length p.output + 1 < cap
    → feed cap p (b'{' ∷ rest)
      ≡ feed cap (record (copied p (b'{' ∷ [])) { brace_depth = pos (suc (2 + d)) }) rest
unfolding feed step keep
feed-open_brace cap d p rest k h = ground (arith, put-room cap p.output b'{')

feed-close_brace :
    (cap d : ℕ) (p : Parser) (rest : Bytes)
    → Copies cap (suc d) p
    → length p.output + 1 < cap
    → feed cap p (b'}' ∷ rest)
      ≡ feed cap (record (copied p (b'}' ∷ [])) { brace_depth = pos (2 + d) }) rest
unfolding feed step keep close_brace
feed-close_brace cap d p rest k h = ground (arith, put-room cap p.output b'}')

abbrev opened : ℕ → Parser → Parser
opened d p = record (copied p (b'{' ∷ [])) { brace_depth = pos (suc (2 + d)) }

feed-object :
    (cap d : ℕ) (b : Bytes) (p : Parser) (rest : Bytes)
    → Copies cap d p
    → length p.output + length b + 2 < cap
    → feed cap (opened d p) (b ++ b'}' ∷ rest) ≡ feed cap (copied (opened d p) b) (b'}' ∷ rest)
    → feed cap p (b'{' ∷ b ++ b'}' ∷ rest) ≡ feed cap (copied p (b'{' ∷ b ++ b'}' ∷ [])) rest
feed-object cap d b p rest k h inner = ground (
  arith,
  feed-open_brace cap d p (b ++ b'}' ∷ rest) k,
  feed-close_brace cap d (copied (opened d p) b) rest,
  append_assoc p.output (b'{' ∷ []) b,
  append_assoc p.output (b'{' ∷ b) (b'}' ∷ []),
  length-append p.output (b'{' ∷ []),
  length-append p.output (b'{' ∷ b),
)

-- A balanced text inside the Node object is copied as it stands, and leaves the parser at the
-- depth where it was.
pub feed-Balanced :
    {s : Bytes} (cap d : ℕ) (p : Parser) (rest : Bytes)
    → Balanced s
    → Copies cap d p
    → length p.output + length s < cap
    → feed cap p (s ++ rest) ≡ feed cap (copied p s) rest
feed-Balanced cap d p rest end k h = ground (arith, append-nil p.output)
feed-Balanced cap d p rest (other {c} {s} a _ b x w) k h = ground (
  arith,
  feed-other cap c d p (s ++ rest) a b x k,
  append_assoc p.output (c ∷ []) s,
  length-append p.output (c ∷ []),
  feed-Balanced cap d (copied p (c ∷ [])) rest w,
)
feed-Balanced cap d p rest (string {q} {s} {t} wq w e) k h = ground (
  arith,
  ap (λ (u : Bytes). u ++ rest) e,
  ap (λ (u : Bytes). p.output ++ u) e,
  ap (λ (u : Bytes). length u) e,
  append_assoc q (b'"' ∷ s) rest,
  length-append q (b'"' ∷ s),
  length-append q (b'"' ∷ []),
  length-append p.output (b'"' ∷ q ++ b'"' ∷ []),
  append_assoc p.output (b'"' ∷ q ++ b'"' ∷ []) s,
  append_assoc q (b'"' ∷ []) s,
  feed-string cap d p (s ++ rest) wq k,
  feed-Balanced cap d (copied p (b'"' ∷ q ++ b'"' ∷ [])) rest w,
)
feed-Balanced cap d p rest (object {b} {s} {t} wb w e) k h = ground (
  arith,
  ap (λ (u : Bytes). u ++ rest) e,
  ap (λ (u : Bytes). p.output ++ u) e,
  ap (λ (u : Bytes). length u) e,
  append_assoc b (b'}' ∷ s) rest,
  length-append b (b'}' ∷ s),
  length-append b (b'}' ∷ []),
  length-append p.output (b'{' ∷ []),
  length-append p.output (b'{' ∷ b ++ b'}' ∷ []),
  append_assoc p.output (b'{' ∷ b ++ b'}' ∷ []) s,
  append_assoc b (b'}' ∷ []) s,
  feed-Balanced cap (suc d) (opened d p) (b'}' ∷ (s ++ rest)) wb,
  feed-object cap d b p (s ++ rest) k,
  feed-Balanced cap d (copied p (b'{' ∷ b ++ b'}' ∷ [])) rest w,
)
