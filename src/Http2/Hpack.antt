-- ===== src/Http2/Hpack.antt =====
-- Header blocks: `encode_literal_header_`, `encode_string_literal_` and `decode_status_header_`.
pub mod Length
pub mod Status
use tailscale_iot.Base.{
  ℕ, zero, suc, ◌+◌, ◌-◌, ◌*◌, ◌/◌, ◌%◌, ◌^◌, ◌<◌, ◌≡◌, refl, List, [], ◌∷◌, ◌++◌, length, take,
  drop, append_assoc, Bytes, arith, Option, none, some, Bool, true, false, ◌&&◌, ◌||◌, ltb, leb,
  ◌==◌, if◌then◌else◌, codes, equal, ℤ, pos, negsuc, ◌>>=◌, is_space, is_digit,
}

-- The loop `while (remaining >= 0x80)` and the byte behind it. Each round divides by 128, so
-- ten rounds are enough for a `size_t`.
unfoldable pub continuation : ℕ → Bytes → ℕ → Bytes
continuation zero block remaining = block ++ (remaining % 256) ∷ []
continuation (suc fuel) block remaining =
    let rest = continuation fuel (block ++ (remaining % 128 + 128) ∷ []) (remaining / 128) in
    if leb 128 remaining then rest else block ++ (remaining % 256) ∷ []

abbrev pub rounds : ℕ
rounds = 10

unfoldable pub encode_string_literal : Bytes → Bytes → Bytes
encode_string_literal block value =
    (if ltb (length value) 0x7f
      then block ++ length value ∷ []
      else continuation rounds (block ++ 0x7f ∷ []) (length value - 0x7f))
    ++ value

unfoldable pub encode_literal_header : Bytes → Bytes → Bytes → Bytes
encode_literal_header block name value =
    encode_string_literal (encode_string_literal (block ++ 0 ∷ []) name) value

-- The digits of `atoi`.
unfoldable pub digits : ℕ → Bytes → ℕ
digits acc [] = acc
digits acc (c ∷ cs) =
    let rest = digits (acc * 10 + (c - b'0')) cs in if is_digit c then rest else acc

-- `static_cast<int16_t>` of a number of either sign.
unfoldable pub to_int16 : Bool → ℕ → ℤ
to_int16 negative n =
    let w : ℕ = if negative then (2 ^ 16 - n % 2 ^ 16) % 2 ^ 16 else n % 2 ^ 16 in
    if ltb w (2 ^ 15) then pos w else negsuc (2 ^ 16 - w - 1)

-- `static_cast<int16_t>(atoi(value.c_str()))`.
unfoldable pub atoi : Bytes → ℤ
unfolding digits to_int16
atoi [] = pos 0
atoi (c ∷ cs) =
    let rest = atoi cs in
    if is_space c
    then rest
    else if c == b'-'
    then to_int16 true (digits 0 cs)
    else if c == b'+'
    then to_int16 false (digits 0 cs)
    else to_int16 false (digits 0 (c ∷ cs))

-- A string behind its length byte, `block[idx++] & 0x7F`, and the bytes that follow it.
unfoldable pub read_string : Bytes → Option (Bytes × Bytes)
read_string [] = none
read_string (l ∷ block) =
    if ltb (length block) (l % 128) then none else some (take (l % 128) block, drop (l % 128) block)

abbrev pub status_name : Bytes
status_name = codes ":status"

-- A literal header: its name and its value.
unfoldable pub read_literal : Bytes → Option (Bytes × Bytes × Bytes)
unfolding read_string
read_literal block = do
  (name, after_name) ← read_string block
  (value, rest) ← read_string after_name
  some (name, value, rest)

abbrev pub no_status : ℤ
no_status = negsuc 0

-- The loop of `decode_status_header_` on what is left of the block; each round reads a byte or more.
unfoldable pub decode_status : ℕ → Bytes → ℤ
decode_status zero block = no_status
decode_status (suc fuel) [] = no_status
decode_status (suc fuel) (b ∷ block) =
    let indexed = if b % 128 == 8 then pos 200 else decode_status fuel block in
    let literal : ℤ = elim (read_literal block) [
      | none ↦ no_status
      | some (name, value, rest) ↦
          if equal name status_name then atoi value else decode_status fuel rest
    ] in
    if leb 128 (b % 256) then indexed else if b / 16 % 16 == 0 then literal else no_status

abbrev pub decode_status_header : Bytes → ℤ
decode_status_header block = decode_status (length block) block
