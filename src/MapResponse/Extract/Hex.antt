-- ===== src/MapResponse/Extract/Hex.antt =====
-- Decoding hexadecimal keys.
use tailscale_iot.Base.{
  ℕ, ◌+◌, ◌*◌, ◌/◌, ◌%◌, ◌<◌, ◌≤◌, ◌≡◌, refl, ap, [], ◌∷◌, Bytes, true, length, drop, All, IsByte,
  arith, if◌then◌else◌, ltb, some, Option-cases, inl, inr, append-nil, ◌∙◌, drop_length,
  length-append, length-drop,
}
use tailscale_iot.MapResponse.Extract.{nibble, hex_pairs, hex_decode_to_bytes}

abbrev pub hex_digit : ℕ → ℕ
hex_digit d = if ltb d 10 then b'0' + d else 87 + d

-- Two digits, `%02x`, for each byte.
abbrev pub hex_encode : Bytes → Bytes
hex_encode [] = []
hex_encode (b ∷ bytes) = hex_digit (b / 16) ∷ hex_digit (b % 16) ∷ hex_encode bytes

nibble-hex_digit : (d : ℕ) → d < 16 → nibble (hex_digit d) ≡ some d
unfolding nibble
nibble-hex_digit d h = ground arith

hex_pairs-hex_encode :
    (bytes : Bytes) → All IsByte bytes → hex_pairs (hex_encode bytes) ≡ (bytes, true)
unfolding hex_pairs
hex_pairs-hex_encode [] h = refl
hex_pairs-hex_encode (b ∷ bytes) h =
    ground
      (arith, nibble-hex_digit (b / 16), nibble-hex_digit (b % 16), hex_pairs-hex_encode bytes h.1)

length-hex_encode : (bytes : Bytes) → length (hex_encode bytes) ≡ length bytes * 2
length-hex_encode [] = refl
length-hex_encode (b ∷ bytes) = omega (arith, length-hex_encode bytes)

-- A key that is written as two hexadecimal digits a byte is decoded to itself if it has exactly
-- the buffer's size, whatever the buffer held.
pub hex_decode_to_bytes-hex_encode :
    (bytes output : Bytes)
    → All IsByte bytes
    → length bytes ≡ length output
    → hex_decode_to_bytes (hex_encode bytes) output ≡ (bytes, length bytes)
unfolding hex_decode_to_bytes
hex_decode_to_bytes-hex_encode bytes output h e =
    let none_left : drop (length bytes) output ≡ [] =
      ap (λ n. drop n output) e ∙ drop_length output in
    ground
      (arith, none_left, append-nil bytes, hex_pairs-hex_encode bytes h, length-hex_encode bytes)

hex_pairs-short : (hex : Bytes) → length (hex_pairs hex).0 * 2 ≤ length hex
unfolding hex_pairs
hex_pairs-short [] = omega arith
hex_pairs-short (c ∷ []) = omega arith
hex_pairs-short (high ∷ low ∷ hex) = elim (Option-cases (nibble high)) [
  | inl e ↦ ground (arith, e)
  | inr (h, e) ↦ elim (Option-cases (nibble low)) [
    | inl f ↦ ground (arith, e, f)
    | inr (l, f) ↦ ground (arith, e, f, hex_pairs-short hex)
  ]
]

-- Whatever the digits, the buffer keeps its size, and the count stays within it.
pub hex_decode_to_bytes-length :
    (hex output : Bytes)
    → (length (hex_decode_to_bytes hex output).0 ≡ length output)
      × ((hex_decode_to_bytes hex output).1 ≤ length output)
unfolding hex_decode_to_bytes
hex_decode_to_bytes-length hex output = ground (
  arith,
  hex_pairs-short hex,
  length-append (hex_pairs hex).0 (drop (length (hex_pairs hex).0) output),
  length-drop (length (hex_pairs hex).0) output,
)
