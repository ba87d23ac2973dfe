-- ===== src/MapResponse/Extract.antt =====
-- The helpers of map_response_parser.cpp that read pieces of text: `extract_quoted_value`,
-- `extract_number`, the ends of sections, `safe_strncpy`, `hex_decode_to_bytes`.
-- A pair of pointers is the list of the bytes between them, so `find_str` is
-- `find`. A `char` array is the C string in it.
pub mod Quoted
pub mod Sections
pub mod Hex
use tailscale_iot.Base.{
  ℕ, zero, suc, ◌+◌, ◌-◌, ◌*◌, ◌^◌, ◌%◌, min, List, [], ◌∷◌, ◌++◌, Bytes, Bool, true, false, not,
  ◌&&◌, ◌||◌, length, take, drop, if◌then◌else◌, ltb, leb, ◌==◌, Option, none, some, ◌>>=◌, c_str,
  is_digit, is_space,
}
use tailscale_iot.Http2.Hpack.{digits}

-- `memchr`: the text from the first such byte on.
unfoldable pub memchr : ℕ → Bytes → Option Bytes
memchr x [] = none
memchr x (c ∷ text) = let rest = memchr x text in if c == x then some (c ∷ text) else rest

-- The loop of `extract_quoted_value`, behind `previous`: what stands before the closing quote, and
-- the text behind that quote.
unfoldable pub to_quote : ℕ → Bytes → Option (Bytes × Bytes)
to_quote previous [] = none
to_quote previous (c ∷ text) =
    let rest : Option (Bytes × Bytes) = elim (to_quote c text) [
      | none ↦ none
      | some (value, behind) ↦ some (c ∷ value, behind)
    ] in
    if c == b'"' && not (previous == b'\\') then some ([], text) else rest

unfoldable pub extract_quoted : Bytes → Option (Bytes × Bytes)
extract_quoted text = elim (memchr b'"' text) [
  | none ↦ none
  | some [] ↦ none
  | some (q ∷ inside) ↦ to_quote q inside
]

abbrev pub is_json_space : ℕ → Bool
is_json_space c = c == b' ' || c == 9 || c == 10 || c == 13

-- `extract_number`, a uint64_t.
unfoldable pub extract_number : Bytes → Option ℕ
extract_number [] = none
extract_number (c ∷ text) =
    let rest = extract_number text in
    if is_json_space c
    then rest
    else if is_digit c
    then some (digits 0 (c ∷ text) % 2 ^ 64)
    else none

-- What the loops that look for the end of a section run over: up to the bracket that closes
-- `depth` open ones, or to the end of the text.
unfoldable pub section : ℕ → ℕ → ℕ → Bytes → Bytes
section opening closing zero text = []
section opening closing (suc d) [] = []
section opening closing (suc d) (c ∷ text) =
    let depth : ℕ = if c == opening then suc (suc d) else if c == closing then d else suc d in
    c ∷ section opening closing depth text

-- A section that begins with a key of `n` bytes that ends in the bracket.
abbrev pub keyed_section : ℕ → ℕ → ℕ → Bytes → Bytes
keyed_section opening closing n from = take n from ++ section opening closing 1 (drop n from)

unfoldable pub safe_strncpy : ℕ → Bytes → Bytes
safe_strncpy size src = c_str (take (size - 1) src)

unfoldable pub nibble : ℕ → Option ℕ
nibble c =
    if leb b'0' c && leb c b'9'
    then some (c - b'0')
    else if leb b'a' c && leb c b'f'
    then some (c - b'a' + 10)
    else if leb b'A' c && leb c b'F'
    then some (c - b'A' + 10)
    else none

-- The decoding loop: the bytes written, and whether it came to the end.
unfoldable pub hex_pairs : Bytes → Bytes × Bool
hex_pairs [] = ([], true)
hex_pairs (c ∷ []) = ([], false)
hex_pairs (high ∷ low ∷ hex) =
    let (bytes, ok) = hex_pairs hex in
    elim (nibble high) [
      | none ↦ ([], false)
      | some h ↦ elim (nibble low) [ none ↦ ([], false) | some l ↦ ((h * 16 + l) ∷ bytes, ok) ]
    ]

-- `hex_decode_to_bytes`: the output buffer, over which an invalid string may have been written in
-- part, and the number of bytes, 0 on an error.
unfoldable pub hex_decode_to_bytes : Bytes → Bytes → Bytes × ℕ
hex_decode_to_bytes hex output =
    let (bytes, ok) = hex_pairs hex in
    let written = bytes ++ drop (length bytes) output in
    if not (length hex % 2 == 0) || ltb (length output * 2) (length hex)
    then (output, 0)
    else (written, if ok then length bytes else 0)
