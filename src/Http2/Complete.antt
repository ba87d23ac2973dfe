-- ===== src/Http2/Complete.antt =====
-- `Http2Session::has_complete_json_`, which decides whether a buffered response is whole.
pub mod Scan
pub mod Whole
pub mod Short
use tailscale_iot.Base.{
  ℕ, zero, suc, ◌+◌, ◌-◌, ◌%◌, ◌^◌, [], ◌∷◌, length, take, drop, get_or, Bytes, Option, none, some,
  Bool, true, false, not, ◌&&◌, ◌||◌, ltb, leb, ◌==◌, if◌then◌else◌, is_space, le32, ℤ, pos, inc,
  dec, ◌==ℤ◌,
}

-- The inner loop over `buffer[i + 1 .. i + 100)`.
unfoldable pub all_whitespace : Bytes → Bool
all_whitespace [] = true
all_whitespace (c ∷ cs) = is_space c && all_whitespace cs

-- The loop that counts braces, at the index `i`: `none` where it returns true, and otherwise
-- `brace_depth` and `in_string` after it.
unfoldable pub scan : ℕ → ℤ → Bool → Bool → Bytes → Option (ℤ × Bool)
scan i depth in_string escaped [] = some (depth, in_string)
scan i depth in_string escaped (c ∷ cs) =
    let plain = scan (i + 1) depth in_string false cs in
    let escape = scan (i + 1) depth in_string true cs in
    let quote = scan (i + 1) depth (not in_string) false cs in
    let open_brace = scan (i + 1) (inc depth) in_string false cs in
    let close_brace = scan (i + 1) (dec depth) in_string false cs in
    if escaped
    then plain
    else if c == b'\\'
    then escape
    else if c == b'"'
    then quote
    else if in_string
    then plain
    else if c == b'{'
    then open_brace
    else if c == b'}'
    then if dec depth ==ℤ pos 0 && ltb 1000 i && all_whitespace (take 99 cs)
      then none
      else close_brace
    else plain

-- The last loop, from the index `i` down: `i > start_offset && i > buffer_size - 100`, the latter
-- on a `size_t` of 32 bits.
unfoldable pub ends_with_brace : Bytes → ℕ → ℕ → Bool
ends_with_brace buffer start zero = false
ends_with_brace buffer start (suc i) =
    let earlier = ends_with_brace buffer start i in
    if ltb start (suc i) && ltb ((length buffer + 2 ^ 32 - 100) % 2 ^ 32) (suc i)
    then if is_space (get_or buffer i 0) then earlier else get_or buffer i 0 == b'}'
    else false

-- What follows the loop over the braces.
unfoldable pub verdict : Bytes → ℕ → Option (ℤ × Bool) → Bool
verdict buffer start none = true
verdict buffer start (some (depth, in_string)) =
    if not (depth ==ℤ pos 0) || in_string
    then false
    else ends_with_brace buffer start (length buffer)

abbrev pub is_msgpack : ℕ → Bool
is_msgpack b = leb 0x80 b && leb b 0x8f || leb 0xa0 b && leb b 0xbf || (b == 0xde || b == 0xdf)

-- From the offset on.
unfoldable pub complete_at : Bytes → ℕ → Bool
complete_at buffer start =
    let first = get_or buffer start 0 in
    if is_msgpack first
    then leb 1024 (length buffer)
    else if first == b'{'
    then verdict buffer start (scan start (pos 0) false false (drop start buffer))
    else false

-- The four bytes in front of the text are taken for its length.
abbrev pub has_prefix : Bytes → Bool
has_prefix (a ∷ b ∷ c ∷ d ∷ e ∷ rest) = not (a == b'{') && e == b'{'
has_prefix _ = false

abbrev pub prefix_length : Bytes → ℕ
prefix_length (a ∷ b ∷ c ∷ d ∷ rest) = le32 a b c d
prefix_length _ = 0

unfoldable pub has_complete_json : Bytes → Bool
has_complete_json buffer =
    if ltb (length buffer) 2
    then false
    else if has_prefix buffer
    then if ltb (length buffer) ((4 + prefix_length buffer) % 2 ^ 32)
      then false
      else complete_at buffer 4
    else complete_at buffer 0
