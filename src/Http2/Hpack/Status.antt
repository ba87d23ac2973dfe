-- ===== src/Http2/Hpack/Status.antt =====
-- What `decode_status_header_` finds in a header block.
use tailscale_iot.Base.{
  ℕ, zero, suc, ◌%◌, ◌<◌, ◌≤◌, ◌≡◌, ◌≢◌, refl, [], ◌∷◌, ◌++◌, length, append_assoc, Bytes, arith,
  some, if◌then◌else◌, take-length_append, drop-length_append, inl, inr, length-append, All, equal,
  length-drop, Option-cases,
}
use tailscale_iot.Http2.Hpack.{
  encode_string_literal, encode_literal_header, read_string, read_literal, decode_status,
  decode_status_header, no_status, atoi, status_name,
}
use tailscale_iot.Http2.Hpack.Length.{encode_string_literal-append}

read_string-encode :
    (v rest : Bytes)
    → length v < 127
    → read_string (encode_string_literal [] v ++ rest) ≡ some (v, rest)
unfolding read_string encode_string_literal
read_string-encode v rest h =
    ground (arith, length-append v rest, take-length_append v rest, drop-length_append v rest)

pub encode_literal_header-append :
    (block name value : Bytes)
    → encode_literal_header block name value ≡ block ++ encode_literal_header [] name value
unfolding encode_literal_header
encode_literal_header-append block name value = ground (
  arith,
  encode_string_literal-append (encode_string_literal (block ++ 0 ∷ []) name) value,
  encode_string_literal-append (encode_string_literal (0 ∷ []) name) value,
  encode_string_literal-append (block ++ 0 ∷ []) name,
  encode_string_literal-append (0 ∷ []) name,
  append_assoc block (0 ∷ []) (encode_string_literal [] name),
  append_assoc block (0 ∷ encode_string_literal [] name) (encode_string_literal [] value),
)

encode_literal_header-cons :
    (name value : Bytes)
    → encode_literal_header [] name value
      ≡ 0 ∷ encode_string_literal (encode_string_literal [] name) value
unfolding encode_literal_header
encode_literal_header-cons name value = ground (
  arith,
  encode_string_literal-append (encode_string_literal (0 ∷ []) name) value,
  encode_string_literal-append (encode_string_literal [] name) value,
  encode_string_literal-append (0 ∷ []) name,
)

read_literal-encode :
    (name value rest : Bytes)
    → length name < 127
    → length value < 127
    → read_literal (encode_string_literal (encode_string_literal [] name) value ++ rest)
      ≡ some (name, value, rest)
unfolding read_literal
read_literal-encode name value rest hn hv = ground (
  arith,
  encode_string_literal-append (encode_string_literal [] name) value,
  append_assoc (encode_string_literal [] name) (encode_string_literal [] value) rest,
  read_string-encode name (encode_string_literal [] value ++ rest) hn,
  read_string-encode value rest hv,
)

read_string-length :
    (block : Bytes) {s rest : Bytes}
    → read_string block ≡ some (s, rest)
    → length rest < length block
unfolding read_string
read_string-length [] e = cc
read_string-length (l ∷ block) e = ground (arith, length-drop (l % 128) block)

read_literal-length :
    (block : Bytes) {n v rest : Bytes}
    → read_literal block ≡ some (n, v, rest)
    → length rest < length block
unfolding read_literal
read_literal-length block {n} {v} {rest} e = elim (Option-cases (read_string block)) [
  | inl h ↦ absurd (ground (arith, h))
  | inr (a, h) ↦
      ground (arith, h, read_string-length block h, read_string-length a.1 {s = v} {rest = rest})
]

-- The fuel does not matter as long as it covers the block.
pub decode_status-fuel :
    (f g : ℕ) (block : Bytes)
    → length block ≤ f
    → length block ≤ g
    → decode_status f block ≡ decode_status g block
unfolding decode_status
decode_status-fuel zero zero block hf hg = refl
decode_status-fuel zero (suc g) [] hf hg = refl
decode_status-fuel (suc f) zero [] hf hg = refl
decode_status-fuel zero (suc g) (b ∷ block) hf hg = absurd (omega arith)
decode_status-fuel (suc f) zero (b ∷ block) hf hg = absurd (omega arith)
decode_status-fuel (suc f) (suc g) [] hf hg = refl
decode_status-fuel (suc f) (suc g) (b ∷ block) hf hg = elim (Option-cases (read_literal block)) [
  | inl h ↦ ground (arith, h, decode_status-fuel f g block)
  | inr (a, h) ↦ ground (
    arith,
    h,
    decode_status-fuel f g block,
    read_literal-length block {n = a.0} {v = a.1} {rest = a.2},
    decode_status-fuel f g a.2,
  )
]

-- A block that begins with a literal header of this client's encoder, its name and value shorter
-- than 127 bytes, is decoded to the header's number if the name is `:status`, and otherwise to
-- what the rest of the block is decoded to.
pub decode_status_header-encode :
    (name value rest : Bytes)
    → length name < 127
    → length value < 127
    → decode_status_header (encode_literal_header [] name value ++ rest)
      ≡ (if equal name status_name then atoi value else decode_status_header rest)
unfolding decode_status
decode_status_header-encode name value rest hn hv = rw (encode_literal_header-cons name value) (
    ground (
      arith,
      read_literal-encode name value rest hn hv,
      read_literal-length (literal ++ rest) (read_literal-encode name value rest hn hv),
      decode_status-fuel (length (literal ++ rest)) (length rest) rest,
    ))
  where
    literal : Bytes
    literal = encode_string_literal (encode_string_literal [] name) value

abbrev pub IsIndexed : ℕ → Type 0
IsIndexed b = (128 ≤ b) × (b < 256) × (b ≢ 136)

-- A block of indexed fields alone, none of them the field 8 (`:status: 200`), gives no status: so
-- it is for 204, 206, 304, 400, 404 and 500, which the static table of HPACK has as 9 to 14.
pub decode_status_header-indexed :
    (block : Bytes) → All IsIndexed block → decode_status_header block ≡ no_status
unfolding decode_status
decode_status_header-indexed [] w = refl
decode_status_header-indexed (b ∷ block) w = ground (arith, decode_status_header-indexed block w.1)
