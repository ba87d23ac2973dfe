-- ===== src/MapResponse/Address.antt =====
-- `is_private_ipv4` of map_response_parser.cpp.
use tailscale_iot.Base.{
  ℕ, ◌-◌, ◌^◌, ◌%◌, min, [], ◌∷◌, Bytes, Bool, true, false, ◌&&◌, ◌||◌, take, if◌then◌else◌, leb,
  ◌==◌, Option, none, some, ◌>>=◌, c_str, is_digit, is_space,
}
use tailscale_iot.Http2.Hpack.{digits}

abbrev pub skip_digits : Bytes → Bytes
skip_digits [] = []
skip_digits (c ∷ text) = if is_digit c then skip_digits text else c ∷ text

-- `%u` of sscanf on an unsigned int of 32 bits, behind the white space and the sign: at least one
-- digit, and the largest number where it overflows.
abbrev pub scan_unsigned : Bool → Bytes → Option (ℕ × Bytes)
scan_unsigned negative [] = none
scan_unsigned negative (c ∷ text) =
    let n = min (digits 0 (c ∷ text)) (2 ^ 32 - 1) in
    let value : ℕ = if negative then (2 ^ 32 - n) % 2 ^ 32 else n in
    if is_digit c then some (value, skip_digits text) else none

unfoldable pub scan_u : Bytes → Option (ℕ × Bytes)
scan_u [] = none
scan_u (c ∷ text) =
    let rest = scan_u text in
    if is_space c
    then rest
    else if c == b'-'
    then scan_unsigned true text
    else if c == b'+'
    then scan_unsigned false text
    else scan_unsigned false (c ∷ text)

-- The dot and the next number of the format.
unfoldable pub scan_dot_u : Bytes → Option (ℕ × Bytes)
scan_dot_u [] = none
scan_dot_u (c ∷ text) = if c == b'.' then scan_u text else none

abbrev pub is_private : ℕ → ℕ → Bool
is_private a b =
    a == 10
    || a == 172 && leb 16 b && leb b 31
    || a == 192 && b == 168
    || a == 127
    || a == 169 && b == 254

-- `is_private_ipv4`, on the first 15 bytes of the string.
unfoldable pub is_private_ipv4 : Bytes → Bool
is_private_ipv4 ip =
    elim (do
      (a, t₁) ← scan_u (c_str (take 15 ip))
      (b, t₂) ← scan_dot_u t₁
      (c, t₃) ← scan_dot_u t₂
      (d, t₄) ← scan_dot_u t₃
      some (is_private a b)) [ none ↦ false | some private ↦ private ]
