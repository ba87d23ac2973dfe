-- ===== src/JsonStream/Document.antt =====
-- Whole documents: what stands before the Node member is skipped, and the Node member comes out.
use tailscale_iot.Base.{
  ℕ, suc, ◌+◌, ◌<◌, ◌≡◌, ◌≢◌, ◌⊎◌, refl, sym, ap, true, false, [], ◌∷◌, ◌++◌, append_assoc,
  append-nil, length, length-append, Bytes, codes, pos, negsuc, arith, equal, c_str, All, ℤ, inl,
  inr, Bool-cases, equal_iff,
}
use tailscale_iot.JsonStream.{
  Parser, State, seeking_field, in_field_name, in_value, expect_colon, initial, put_all, keep,
  string_byte, open_quote, start_capture, colon, close_brace, comma, step, feed, node_field,
}
use tailscale_iot.Json.{Quoted, Balanced, end, plain, escape, other, string, object}
use tailscale_iot.JsonStream.Capture.{copied, feed-Balanced, put-room}

-- The parser between two bytes that it does not copy.
pub record Skips (d : ℕ) (p : Parser) : Type 0 where
  pub outside : p.in_string ≡ false
  pub unescaped : p.escape_next ≡ false
  pub silent : p.capturing ≡ false
  pub outer : (p.capture_depth ≡ negsuc 0) ⊎ (p.capture_depth ≡ pos 2)
  pub depth : p.brace_depth ≡ pos d

skip-Quoted :
    {q : Bytes} (cap : ℕ) (p : Parser) (rest : Bytes)
    → Quoted q
    → p.state ≡ in_value
    → p.in_string ≡ true
    → p.escape_next ≡ false
    → p.capturing ≡ false
    → feed cap p (q ++ b'"' ∷ rest) ≡ feed cap (record p { in_string = false }) rest
unfolding feed step string_byte keep
skip-Quoted cap p rest end s i e c = ground arith
skip-Quoted cap p rest (plain a b q) s i e c = ground (arith, skip-Quoted cap p rest q)
skip-Quoted cap p rest (escape {c = x} q) s i e c = ground (arith, skip-Quoted cap p rest q)

skip-string :
    {q : Bytes} (cap d : ℕ) (p : Parser) (rest : Bytes)
    → Quoted q
    → p.state ≡ in_value
    → Skips d p
    → feed cap p (b'"' ∷ q ++ b'"' ∷ rest) ≡ feed cap p rest
unfolding feed step open_quote keep
skip-string cap d p rest w s k =
    ground (arith, skip-Quoted cap (record p { in_string = true }) rest w)

skip-Balanced :
    {s : Bytes} (cap d : ℕ) (p : Parser) (rest : Bytes)
    → Balanced s
    → p.state ≡ in_value
    → Skips (2 + d) p
    → feed cap p (s ++ rest) ≡ feed cap p rest
unfolding feed step keep colon comma close_brace
skip-Balanced cap d p rest end s k = refl
skip-Balanced cap d p rest (other a _ b x w) s k = ground (arith, skip-Balanced cap d p rest w)
skip-Balanced cap d p rest (string {q} {s = t} wq w e) s k = ground (
  arith,
  ap (λ (u : Bytes). u ++ rest) e,
  append_assoc q (b'"' ∷ t) rest,
  skip-string cap (2 + d) p (t ++ rest) wq s k,
  skip-Balanced cap d p rest w,
)
skip-Balanced cap d p rest (object {b} {s = t} wb w e) s k = ground (
  arith,
  ap (λ (u : Bytes). u ++ rest) e,
  append_assoc b (b'}' ∷ t) rest,
  skip-Balanced cap (suc d) (record p { brace_depth = pos (suc (2 + d)) }) (b'}' ∷ (t ++ rest)) wb,
  skip-Balanced cap d p rest w,
)

abbrev pub IsNameByte : ℕ → Type 0
IsNameByte c = (c ≢ b'"') × (c ≢ b'\\') × (c ≢ 0)

-- A member's name that fits `field_name_buf_`, with no escape in it.
pub record IsName (n : Bytes) : Type 0 where
  pub bytes : All IsNameByte n
  pub short : length n < 32

abbrev pub IsScalarByte : ℕ → Type 0
IsScalarByte c = (c ≢ b'"') × (c ≢ b'{') × (c ≢ b'}') × (c ≢ b',') × (c ≢ b':')

pub data Value : Bytes → Type 0 where
  scalar : {v : Bytes} → All IsScalarByte v → Value v
  text : {q v : Bytes} → Quoted q → v ≡ b'"' ∷ q ++ b'"' ∷ [] → Value v
  nested : {b v : Bytes} → Balanced b → v ≡ b'{' ∷ b ++ b'}' ∷ [] → Value v

-- `"name":value,` any number of times, with no member called Node.
pub data Members : Bytes → Type 0 where
  no_members : Members []
  member :
      {n v ms t : Bytes}
      → IsName n
      → n ≢ codes "Node"
      → Value v
      → Members ms
      → t ≡ b'"' ∷ n ++ (b'"' ∷ b':' ∷ v ++ b',' ∷ ms)
      → Members t

pub record Seeks (p : Parser) : Type 0 where
  pub skips : Skips 1 p
  pub seeking : p.state ≡ seeking_field
  pub blank : p.output ≡ []

read_name :
    (n : Bytes) (cap : ℕ) (p : Parser) (rest : Bytes)
    → All IsNameByte n
    → p.state ≡ in_field_name
    → p.in_string ≡ true
    → p.escape_next ≡ false
    → p.capturing ≡ false
    → p.brace_depth ≡ pos 1
    → length p.field_name + length n < 32
    → feed cap p (n ++ b'"' ∷ rest)
      ≡ feed cap
          (record p { in_string = false; state = expect_colon; field_name = p.field_name ++ n })
          rest
unfolding feed step string_byte keep
read_name [] cap p rest w s i e c d h = ground (arith, append-nil p.field_name)
read_name (x ∷ n) cap p rest w s i e c d h = ground (
  arith,
  append_assoc p.field_name (x ∷ []) n,
  length-append p.field_name (x ∷ []),
  read_name n cap (record p { field_name = p.field_name ++ x ∷ [] }) rest w.1,
)

c_str-name : (n : Bytes) → All IsNameByte n → c_str n ≡ n
unfolding c_str
c_str-name [] w = refl
c_str-name (x ∷ n) w = ground (arith, c_str-name n w.1)

-- A name at the top level, up to the colon.
feed-name :
    (n : Bytes) (cap : ℕ) (p : Parser) (rest : Bytes)
    → IsName n
    → Seeks p
    → feed cap p (b'"' ∷ n ++ b'"' ∷ rest)
      ≡ feed cap (record p { state = expect_colon; field_name = n }) rest
unfolding feed step open_quote keep
feed-name n cap p rest w k = ground (
  arith,
  read_name n cap (record p { in_string = true; state = in_field_name; field_name = [] }) rest
      w.bytes,
)

skip-scalar :
    (v : Bytes) (cap : ℕ) (p : Parser) (rest : Bytes)
    → All IsScalarByte v
    → Skips 1 p
    → feed cap p (v ++ rest) ≡ feed cap p rest
unfolding feed step keep
skip-scalar [] cap p rest w k = refl
skip-scalar (c ∷ v) cap p rest w k = ground (arith, skip-scalar v cap p rest w.1)

skip-comma :
    (cap : ℕ) (p : Parser) (rest : Bytes)
    → Skips 1 p
    → feed cap p (b',' ∷ rest) ≡ feed cap (record p { state = seeking_field; field_name = [] }) rest
unfolding feed step keep comma
skip-comma cap p rest k = ground arith

abbrev next_field : Parser → ℤ → Parser
next_field p d = record p { state = seeking_field; field_name = []; capture_depth = d }

skip-nested :
    (b : Bytes) (cap : ℕ) (p : Parser) (rest : Bytes)
    → Balanced b
    → Skips 1 p
    → p.state ≡ in_value
    → feed cap p (b'{' ∷ b ++ b'}' ∷ b',' ∷ rest) ≡ feed cap (next_field p (negsuc 0)) rest
unfolding feed step keep close_brace comma
skip-nested b cap p rest w k s =
    ground (arith, skip-Balanced cap 0 (record p { brace_depth = pos 2 }) (b'}' ∷ b',' ∷ rest) w)

skip-colon :
    (n : Bytes) (cap : ℕ) (p : Parser) (rest : Bytes)
    → IsName n
    → n ≢ codes "Node"
    → Skips 1 p
    → p.state ≡ expect_colon
    → p.field_name ≡ n
    → (d : ℤ) × ((d ≡ negsuc 0) ⊎ (d ≡ pos 2))
      × (feed cap p (b':' ∷ rest)
          ≡ feed cap (record p { state = in_value; capture_depth = d }) rest)
unfolding feed step keep colon
skip-colon n cap p rest w ne k s e = elim (Bool-cases (equal n (codes "DERPMap"))) [
  | inl h ↦ (
    pos 2,
    inr refl,
    ground
        (arith, h, ap (λ (u : Bytes). c_str u) e, c_str-name n w.bytes, equal_iff n (codes "Node")),
  )
  | inr h ↦ (
    p.capture_depth,
    k.outer,
    ground
        (arith, h, ap (λ (u : Bytes). c_str u) e, c_str-name n w.bytes, equal_iff n (codes "Node")),
  )
]

-- A value and the comma behind it.
skip-Value :
    {v : Bytes} (cap : ℕ) (p : Parser) (rest : Bytes)
    → Value v
    → Skips 1 p
    → p.state ≡ in_value
    → (d : ℤ) × ((d ≡ negsuc 0) ⊎ (d ≡ pos 2))
      × (feed cap p (v ++ b',' ∷ rest) ≡ feed cap (next_field p d) rest)
skip-Value {v} cap p rest (scalar w) k s = (
  p.capture_depth,
  k.outer,
  ground (arith, skip-scalar v cap p (b',' ∷ rest) w k, skip-comma cap p rest k),
)
skip-Value {v} cap p rest (text {q} w e) k s = (
  p.capture_depth,
  k.outer,
  ground (
    arith,
    ap (λ (u : Bytes). u ++ b',' ∷ rest) e,
    append_assoc q (b'"' ∷ []) (b',' ∷ rest),
    skip-string cap 1 p (b',' ∷ rest) w s k,
    skip-comma cap p rest k,
  ),
)
skip-Value {v} cap p rest (nested {b} w e) k s = (
  negsuc 0,
  inl refl,
  ground (
    arith,
    ap (λ (u : Bytes). u ++ b',' ∷ rest) e,
    append_assoc b (b'}' ∷ []) (b',' ∷ rest),
    skip-nested b cap p rest w k s,
  ),
)

Skips-record :
    (p : Parser) (st : State) (n : Bytes) (d : ℤ)
    → Skips 1 p
    → (d ≡ negsuc 0) ⊎ (d ≡ pos 2)
    → Skips 1 (record p { state = st; field_name = n; capture_depth = d })
Skips-record p st n d k h = record {
  outside = k.outside;
  unescaped = k.unescaped;
  silent = k.silent;
  outer = h;
  depth = k.depth;
}

-- Every document starts so: members that are not the Node are skipped without a trace.
skip-Members :
    {ms : Bytes} (cap : ℕ) (p : Parser) (rest : Bytes)
    → Members ms
    → Seeks p
    → (q : Parser) × Seeks q × (feed cap p (ms ++ rest) ≡ feed cap q rest)
skip-Members cap p rest no_members k = (p, k, refl)
skip-Members cap p rest (member {n} {v} {ms} {t} wn ne wv w e) k =
    let read : Skips 1 (record p { state = expect_colon; field_name = n }) =
      Skips-record p expect_colon n p.capture_depth k.skips k.skips.outer in
    let (d, hd, at_colon) =
      skip-colon n cap (record p { state = expect_colon; field_name = n })
        (v ++ b',' ∷ (ms ++ rest)) wn ne read refl refl in
    let valued : Parser = record p { state = in_value; field_name = n; capture_depth = d } in
    let (d', hd', at_value) =
      skip-Value cap valued (ms ++ rest) wv (Skips-record p in_value n d k.skips hd) refl in
    let (q, kq, later) = skip-Members cap (next_field valued d') rest w (record {
      skips = Skips-record p seeking_field [] d' k.skips hd';
      seeking = refl;
      blank = k.blank;
    }) in
    (
      q,
      kq,
      ground (
        arith,
        ap (λ (u : Bytes). u ++ rest) e,
        append_assoc n (b'"' ∷ b':' ∷ v ++ b',' ∷ ms) rest,
        append_assoc v (b',' ∷ ms) rest,
        feed-name n cap p (b':' ∷ (v ++ b',' ∷ (ms ++ rest))) wn k,
        at_colon,
        at_value,
        later,
      ),
    )

IsName-codes : IsName (codes "Node")
IsName-codes = record { bytes = omega arith; short = omega arith }

put_all-room :
    (cap : ℕ) (out cs : Bytes) → length out + length cs < cap → put_all cap out cs ≡ out ++ cs
unfolding put_all
put_all-room cap out [] h = sym (append-nil out)
put_all-room cap out (c ∷ cs) h = ground (
  arith,
  put-room cap out c,
  append_assoc out (c ∷ []) cs,
  length-append out (c ∷ []),
  put_all-room cap (out ++ c ∷ []) cs,
)

-- The parser behind the opening brace of the Node object.
abbrev in_node : Parser → Parser
in_node p = record p {
  state = in_value;
  field_name = codes "Node";
  capturing = true;
  capture_depth = pos 2;
  found_node = true;
  brace_depth = pos 2;
  output = codes "{\"Node\":{";
}

feed-start_capture :
    (cap : ℕ) (p : Parser) (rest : Bytes)
    → Seeks p
    → 9 < cap
    → feed cap (record p { state = expect_colon; field_name = codes "Node" }) (b':' ∷ b'{' ∷ rest)
      ≡ feed cap (in_node p) rest
unfolding feed step colon start_capture keep equal c_str
feed-start_capture cap p rest k h = ground (
  arith,
  put-room cap [] b'{',
  put_all-room cap (b'{' ∷ []) node_field,
  put-room cap (codes "{\"Node\":") b'{',
)

feed-stop_capture :
    (cap : ℕ) (p : Parser) (b rest : Bytes)
    → Seeks p
    → length b + 11 < cap
    → feed cap (copied (in_node p) b) (b'}' ∷ rest)
      ≡ (record (copied (in_node p) (b ++ codes "}}")) { brace_depth = pos 1 }, true)
unfolding feed step close_brace
feed-stop_capture cap p b rest k h = ground (
  arith,
  put-room cap (codes "{\"Node\":{" ++ b) b'}',
  put-room cap (codes "{\"Node\":{" ++ b ++ b'}' ∷ []) b'}',
  length-append b (b'}' ∷ []),
  append_assoc b (b'}' ∷ []) (b'}' ∷ []),
)

-- The Node member itself.
feed-node :
    {b : Bytes} (cap : ℕ) (p : Parser) (rest : Bytes)
    → Balanced b
    → Seeks p
    → length b + 11 < cap
    → feed cap p (node_field ++ b'{' ∷ b ++ b'}' ∷ rest)
      ≡ (record (copied (in_node p) (b ++ codes "}}")) { brace_depth = pos 1 }, true)
feed-node {b} cap p rest w k h = ground (
  arith,
  feed-name (codes "Node") cap p (b':' ∷ b'{' ∷ (b ++ b'}' ∷ rest)) IsName-codes k,
  feed-start_capture cap p (b ++ b'}' ∷ rest) k,
  feed-Balanced cap 0 (in_node p) (b'}' ∷ rest) w (record {
    state = refl;
    outside = k.skips.outside;
    unescaped = k.skips.unescaped;
    capturing = refl;
    outer = refl;
    depth = refl;
  }),
  feed-stop_capture cap p b rest k h,
)

abbrev opened_initial : Parser
opened_initial = record initial { brace_depth = pos 1 }

opened-Seeks : Seeks opened_initial
opened-Seeks = record {
  skips = record {
    outside = refl;
    unescaped = refl;
    silent = refl;
    outer = inl refl;
    depth = refl;
  };
  seeking = refl;
  blank = refl;
}

feed_opening :
    (cap : ℕ) (rest : Bytes) → feed cap initial (b'{' ∷ rest) ≡ feed cap opened_initial rest
unfolding feed step keep
feed_opening cap rest = refl

-- Let a document begin with members that have no escape in their names, names of at most 31
-- bytes other than Node, and a scalar, a string or an object as value; then comes the member
-- Node with an object `{b}`; and then anything. If the output buffer holds the result, the parser
-- stops with `true`, and its output is exactly `{"Node":{b}}`.
pub feed-Node :
    {ms b : Bytes} (cap : ℕ) (rest : Bytes)
    → Members ms
    → Balanced b
    → length b + 11 < cap
    → let r = feed cap initial (b'{' ∷ ms ++ (node_field ++ b'{' ∷ b ++ b'}' ∷ rest)) in
      (r.1 ≡ true)
      × (r.0.output ≡ codes "{\"Node\":{" ++ (b ++ codes "}}"))
      × (r.0.found_node ≡ true)
feed-Node {ms} {b} cap rest wm wb h =
    let (q, kq, skipped) =
      skip-Members cap opened_initial (node_field ++ b'{' ∷ b ++ b'}' ∷ rest) wm opened-Seeks in
    ground (
      arith,
      feed_opening cap (ms ++ (node_field ++ b'{' ∷ b ++ b'}' ∷ rest)),
      skipped,
      feed-node cap q rest wb kq h,
    )
