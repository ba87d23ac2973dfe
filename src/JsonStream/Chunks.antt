-- ===== src/JsonStream/Chunks.antt =====
-- A document that comes in chunks.
use tailscale_iot.Base.{
  ℕ, ◌+◌, ◌<◌, ◌≡◌, refl, sym, ap, ◌∙◌, List, Bool, true, false, [], ◌∷◌, ◌++◌, Bytes, codes,
  length, arith,
}
use tailscale_iot.Json.{Balanced}
use tailscale_iot.JsonStream.{Parser, initial, step, feed, node_field}
use tailscale_iot.JsonStream.Document.{Members, feed-Node}

-- What the caller does with the next chunk: it feeds it unless the Node member was complete.
abbrev feed_next : ℕ → Parser × Bool → Bytes → Parser × Bool
feed_next cap (p, true) cs = (p, true)
feed_next cap (p, false) cs = feed cap p cs

feed-append :
    (cap : ℕ) (p : Parser) (xs ys : Bytes)
    → feed cap p (xs ++ ys) ≡ feed_next cap (feed cap p xs) ys
unfolding feed
feed-append cap p [] ys = refl
feed-append cap p (c ∷ xs) ys = ground (arith, feed-append cap (step cap p c).0 xs ys)

-- All chunks, one after the other.
abbrev pub feed_each : ℕ → Parser × Bool → List Bytes → Parser × Bool
feed_each cap r [] = r
feed_each cap r (c ∷ chunks) = feed_each cap (feed_next cap r c) chunks

abbrev pub joined : List Bytes → Bytes
joined [] = []
joined (c ∷ chunks) = c ++ joined chunks

feed_each-joined :
    (cap : ℕ) (r : Parser × Bool) (chunks : List Bytes)
    → feed_each cap r chunks ≡ feed_next cap r (joined chunks)
unfolding feed
feed_each-joined cap (p, true) [] = refl
feed_each-joined cap (p, true) (c ∷ chunks) = feed_each-joined cap (p, true) chunks
feed_each-joined cap (p, false) [] = refl
feed_each-joined cap (p, false) (c ∷ chunks) =
    feed_each-joined cap (feed cap p c) chunks ∙ sym (feed-append cap p c (joined chunks))

-- The parser finds the Node member of a document in whatever chunks it comes, cut anywhere, also
-- inside a name, an escape or the member itself. The document begins with members that have no
-- escape in their names, names of at most 31 bytes other than Node, and a scalar, a string
-- or an object as value; then comes the member Node with an object `{b}`; and then anything. If
-- the output buffer holds the result, the parser stops with `true`, and its output is exactly
-- `{"Node":{b}}`.
pub feed_each-Node :
    {ms b : Bytes} (cap : ℕ) (chunks : List Bytes) (rest : Bytes)
    → Members ms
    → Balanced b
    → length b + 11 < cap
    → joined chunks ≡ b'{' ∷ ms ++ (node_field ++ b'{' ∷ b ++ b'}' ∷ rest)
    → let r = feed_each cap (initial, false) chunks in
      (r.1 ≡ true)
      × (r.0.output ≡ codes "{\"Node\":{" ++ (b ++ codes "}}"))
      × (r.0.found_node ≡ true)
feed_each-Node {ms} {b} cap chunks rest wm wb h e =
    let whole = feed-Node cap rest wm wb h in
    let same : feed_each cap (initial, false) chunks
        ≡ feed cap initial (b'{' ∷ ms ++ (node_field ++ b'{' ∷ b ++ b'}' ∷ rest)) =
      feed_each-joined cap (initial, false) chunks ∙ ap (feed cap initial) e in
    (
      ap (λ (r : Parser × Bool). r.1) same ∙ whole.0,
      ap (λ (r : Parser × Bool). r.0.output) same ∙ whole.1,
      ap (λ (r : Parser × Bool). r.0.found_node) same ∙ whole.2,
    )
