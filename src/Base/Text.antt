-- ===== src/Base/Text.antt =====
-- Byte strings: `std::string`, `std::vector<uint8_t>` and `char` buffers are lists of numbers
-- below 256. A pointer into a buffer is the list of the bytes from it to the buffer's end.
use Prim.Native.Char.{code}
use Prim.Native.Nat.{ℕ, ◌+◌, ◌*◌, ◌^◌, ◌<◌}
use Prim.Native.String.{String}
use mathlib.Core.Bool.{Bool, true, false, ◌&&◌, ◌||◌}
use mathlib.Core.List.{List, [], ◌∷◌, ◌++◌}
use mathlib.Core.Logic.{◌↔◌}
use mathlib.Core.Path.{◌≡◌, refl}
use native.Mathlib.Omega.{arith}
use tailscale_iot.Base.Tests.{◌==◌, leb}

abbrev pub Bytes : Type 0
Bytes = List ℕ

abbrev pub codes : String → Bytes
codes String.[] = []
codes (String.◌∷◌ c s) = code c ∷ codes s

-- Every element of the list has the property.
abbrev pub All {ℓ κ} : {A : Type ℓ} → (A → Type κ) → List A → Type κ
All P [] = Unit
All P (x ∷ xs) = P x × All P xs

abbrev pub IsByte : ℕ → Type 0
IsByte b = b < 256

-- `memcmp(s, t, …) == 0` on two strings of one length, and `==` of std::string.
unfoldable pub equal : Bytes → Bytes → Bool
equal [] [] = true
equal (x ∷ xs) (y ∷ ys) = x == y && equal xs ys
equal _ _ = false

pub equal_iff : (s t : Bytes) → (equal s t ≡ true) ↔ (s ≡ t)
unfolding equal
equal_iff (x ∷ s) (y ∷ t) = ground (arith, equal_iff s t)
equal_iff _ _ = ground arith

pub equal_refl : (s : Bytes) → equal s s ≡ true
equal_refl s = (equal_iff s s).1 refl

-- The needle stands at the head of the text.
unfoldable pub starts_with : Bytes → Bytes → Bool
starts_with [] s = true
starts_with (x ∷ xs) [] = false
starts_with (x ∷ xs) (y ∷ ys) = x == y && starts_with xs ys

pub starts_with-append : (n s : Bytes) → starts_with n (n ++ s) ≡ true
unfolding starts_with
starts_with-append [] s = refl
starts_with-append (x ∷ n) s = ground (arith, starts_with-append n s)

-- The C string in a buffer: up to the first NUL.
unfoldable pub c_str : Bytes → Bytes
c_str [] = []
c_str (c ∷ cs) = let rest = c ∷ c_str cs in elim (c == 0) [ true ↦ [] | false ↦ rest ]

-- `isspace`, `isdigit`, `isalnum` of the C locale.
abbrev pub is_space : ℕ → Bool
is_space c = c == b' ' || leb 9 c && leb c 13

abbrev pub is_digit : ℕ → Bool
is_digit c = leb b'0' c && leb c b'9'

abbrev pub is_alnum : ℕ → Bool
is_alnum c = is_digit c || leb b'a' c && leb c b'z' || leb b'A' c && leb c b'Z'

-- uint32_t from four bytes, least significant first.
abbrev pub le32 : ℕ → ℕ → ℕ → ℕ → ℕ
le32 a b c d = a + b * 2 ^ 8 + c * 2 ^ 16 + d * 2 ^ 24
