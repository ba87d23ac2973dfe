-- ===== src/Http2/Hpack/Length.antt =====
-- The length prefix of a string literal against a decoder written from RFC 7541, section 5.1.
use native.Mathlib.Nat.{pow-suc}
use tailscale_iot.Base.{
  ℕ, zero, suc, ◌+◌, ◌-◌, ◌*◌, ◌/◌, ◌%◌, ◌^◌, ◌<◌, ◌≡◌, refl, [], ◌∷◌, ◌++◌, length, take, drop,
  append_assoc, Bytes, arith, Option, none, some, ltb, leb, ◌==◌, if◌then◌else◌, ◌>>=◌,
  take-length_append, drop-length_append, inl, inr, Bool-cases, length-append,
}
use tailscale_iot.Http2.Hpack.{continuation, rounds, encode_string_literal}

-- The integer behind a full prefix: seven bits to a byte, least significant first, until a byte
-- whose top bit is clear.
unfoldable pub read_varint : Bytes → Option (ℕ × Bytes)
read_varint [] = none
read_varint (b ∷ bs) =
    let more : Option (ℕ × Bytes) = (do
      (n, rest) ← read_varint bs
      some (b - 128 + 128 * n, rest)) in
    if ltb b 128 then some (b, bs) else more

-- An integer with a prefix of seven bits.
unfoldable pub read_length : Bytes → Option (ℕ × Bytes)
read_length [] = none
read_length (l ∷ bs) =
    if l % 128 == 127
    then (do (n, rest) ← read_varint bs; some (127 + n, rest))
    else some (l % 128, bs)

unfoldable pub read_literal_string : Bytes → Option (Bytes × Bytes)
read_literal_string block = do
  (n, rest) ← read_length block
  if ltb (length rest) n then none else some (take n rest, drop n rest)

continuation-append :
    (fuel : ℕ) (block : Bytes) (n : ℕ) → continuation fuel block n ≡ block ++ continuation fuel [] n
unfolding continuation
continuation-append zero block n = refl
continuation-append (suc fuel) block n = ground (
  arith,
  continuation-append fuel (block ++ (n % 128 + 128) ∷ []) (n / 128),
  continuation-append fuel ((n % 128 + 128) ∷ []) (n / 128),
  append_assoc block ((n % 128 + 128) ∷ []) (continuation fuel [] (n / 128)),
)

read_varint-continuation :
    (fuel n : ℕ) (rest : Bytes)
    → n < 128 ^ suc fuel
    → read_varint (continuation fuel [] n ++ rest) ≡ some (n, rest)
unfolding continuation read_varint
read_varint-continuation zero n rest h = ground arith
read_varint-continuation (suc fuel) n rest h = elim (Bool-cases (leb 128 n)) [
  | inl big ↦ ground (
    arith,
    big,
    continuation-append fuel ((n % 128 + 128) ∷ []) (n / 128),
    read_varint-continuation fuel (n / 128) rest (omega (arith, pow-suc 128 (suc fuel))),
  )
  | inr small ↦ ground (arith, small)
]

-- What is written behind a block does not depend on it.
pub encode_string_literal-append :
    (block value : Bytes)
    → encode_string_literal block value ≡ block ++ encode_string_literal [] value
unfolding encode_string_literal
encode_string_literal-append block value = elim (Bool-cases (ltb (length value) 0x7f)) [
  | inl e ↦ ground (arith, e, append_assoc block (length value ∷ []) value)
  | inr e ↦ ground (
    arith,
    e,
    continuation-append rounds (block ++ 0x7f ∷ []) (length value - 0x7f),
    continuation-append rounds (0x7f ∷ []) (length value - 0x7f),
    append_assoc block (0x7f ∷ []) (continuation rounds [] (length value - 0x7f)),
    append_assoc block (0x7f ∷ continuation rounds [] (length value - 0x7f)) value,
  )
]

take-length_self : (n : ℕ) (v rest : Bytes) → n ≡ length v → take n (v ++ rest) ≡ v
take-length_self n v rest e = rw e (take-length_append v rest)

drop-length_self : (n : ℕ) (v rest : Bytes) → n ≡ length v → drop n (v ++ rest) ≡ rest
drop-length_self n v rest e = rw e (drop-length_append v rest)

read_length-encode :
    (value rest : Bytes)
    → length value < 2 ^ 32
    → read_length (encode_string_literal [] value ++ rest) ≡ some (length value, value ++ rest)
unfolding encode_string_literal read_length
read_length-encode value rest h = elim (Bool-cases (ltb (length value) 0x7f)) [
  | inl e ↦ ground (arith, e)
  | inr e ↦ ground (
    arith,
    e,
    continuation-append rounds (0x7f ∷ []) (length value - 0x7f),
    append_assoc (continuation rounds [] (length value - 0x7f)) value rest,
    read_varint-continuation rounds (length value - 0x7f) (value ++ rest) (omega arith),
  )
]

-- A string that `encode_string_literal_` writes is read back, with what follows it, by a decoder
-- of RFC 7541 string literals, whatever its length below 2 ^ 32: the prefix is right for short
-- strings and for those that need continuation bytes.
pub read_literal_string-encode :
    (value rest : Bytes)
    → length value < 2 ^ 32
    → read_literal_string (encode_string_literal [] value ++ rest) ≡ some (value, rest)
unfolding read_literal_string
read_literal_string-encode value rest h = ground (
  arith,
  read_length-encode value rest h,
  length-append value rest,
  take-length_append value rest,
  drop-length_append value rest,
)
