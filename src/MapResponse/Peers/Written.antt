-- ===== src/MapResponse/Peers/Written.antt =====
-- The choice of an endpoint, on addresses as servers write them.
use tailscale_iot.Base.{
  ℕ, ◌+◌, ◌*◌, ◌/◌, ◌%◌, ◌^◌, ◌<◌, ◌≤◌, ◌≡◌, ◌≢◌, List, [], ◌∷◌, ◌++◌, Bytes, Bool, true, false,
  not, ◌&&◌, ◌||◌, All, Option, none, some, if◌then◌else◌, ltb, leb, is_digit,
}
use tailscale_iot.MapResponse.Extract.{safe_strncpy}
use tailscale_iot.MapResponse.Peers.Endpoints.{first_of}

-- An endpoint: an IPv4 address with a port, or an IPv6 address in brackets, of which only the
-- bytes behind the opening bracket matter.
pub data Endpoint : Type 0 where
  v4 : ℕ → ℕ → ℕ → ℕ → Bytes → Endpoint
  v6 : Bytes → Endpoint

-- A number below 1000 without leading zeros.
abbrev octet : ℕ → Bytes
octet n =
    if ltb n 10
    then (48 + n) ∷ []
    else if ltb n 100
    then (48 + n / 10) ∷ (48 + n % 10) ∷ []
    else (48 + n / 100) ∷ (48 + n / 10 % 10) ∷ (48 + n % 10) ∷ []

abbrev address : ℕ → ℕ → ℕ → ℕ → Bytes
address a b c d = octet a ++ b'.' ∷ (octet b ++ b'.' ∷ (octet c ++ b'.' ∷ octet d))

abbrev pub text_of : Endpoint → Bytes
text_of (v4 a b c d port) = address a b c d ++ b':' ∷ port
text_of (v6 inside) = b'[' ∷ inside

-- The numbers of the address are bytes, the port has digits only, and an IPv6 address has no
-- quotes and no backslashes.
abbrev pub IsWritten : Endpoint → Type 0
IsWritten (v4 a b c d port) =
    (a < 256) × (b < 256) × (c < 256) × (d < 256) × All (λ x. is_digit x ≡ true) port
IsWritten (v6 inside) = All (λ x. (x ≢ b'"') × (x ≢ b'\\')) inside

abbrev pub within : ℕ → ℕ → ℕ → Bool
within low high n = leb low n && leb n high

-- 10.0.0.0/8, 172.16.0.0/12, 192.168.0.0/16, 127.0.0.0/8 and 169.254.0.0/16.
abbrev pub in_private_network : ℕ → Bool
in_private_network n =
    within 0x0A000000 0x0AFFFFFF n
    || within 0xAC100000 0xAC1FFFFF n
    || within 0xC0A80000 0xC0A8FFFF n
    || within 0x7F000000 0x7FFFFFFF n
    || within 0xA9FE0000 0xA9FEFFFF n

abbrev pub number : ℕ → ℕ → ℕ → ℕ → ℕ
number a b c d = a * 2 ^ 24 + b * 2 ^ 16 + c * 2 ^ 8 + d

abbrev pub is_public_v4 : Endpoint → Bool
is_public_v4 (v4 a b c d port) = not (in_private_network (number a b c d))
is_public_v4 (v6 inside) = false

abbrev pub is_private_v4 : Endpoint → Bool
is_private_v4 (v4 a b c d port) = in_private_network (number a b c d)
is_private_v4 (v6 inside) = false

-- The characters of an address: digits and dots.
abbrev IsAddressChar : ℕ → Type 0
IsAddressChar c = (46 ≤ c) × (c ≤ 57)

-- The characters of an IPv4 endpoint: those of an address, and the colon.
abbrev IsEndpointChar : ℕ → Type 0
IsEndpointChar c = (46 ≤ c) × (c ≤ 58)

-- What a list of endpoints gives: the first public IPv4 endpoint, or else the first private one,
-- or else what there was.
abbrev pub pick : List Endpoint → Bytes → Bytes
pick es chosen = elim (first_of is_public_v4 es) [
  | some e ↦ safe_strncpy 64 (text_of e)
  | none ↦ elim (first_of is_private_v4 es) [ some e ↦ safe_strncpy 64 (text_of e) | none ↦ chosen ]
]

abbrev text_if : Option Endpoint → Option Bytes
text_if none = none
text_if (some e) = some (text_of e)
