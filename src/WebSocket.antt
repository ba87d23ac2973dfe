-- ===== src/WebSocket.antt =====
-- WebSocket framing: `encode_websocket_frame` and `decode_websocket_frame` of
-- components/tailscale/ts2021_upgrade.cpp. The random masking key is an argument.
pub mod Mask
pub mod RoundTrip
pub mod Server
pub mod Bounds
use Prim.Native.Nat.{bit_xor}
use tailscale_iot.Base.{
  ℕ, suc, ◌+◌, ◌*◌, ◌/◌, ◌%◌, ◌^◌, List, [], ◌∷◌, ◌++◌, Bytes, Bool, true, false, length, take,
  drop, get_or, if◌then◌else◌, ltb, ◌==◌, Option, none, some,
}

-- `sizeof(g_ws_payload_buffer)`.
abbrev pub payload_capacity : ℕ
payload_capacity = 8192

-- `data[i] ^ mask[i % 4]`, from the byte at `i` on.
unfoldable pub mask_from : ℕ → Bytes → Bytes → Bytes
mask_from i mask [] = []
mask_from i mask (b ∷ bytes) = bit_xor b (get_or mask (i % 4) 0) ∷ mask_from (suc i) mask bytes

-- The mask bit and the payload's length. `len >> (i * 8)` is read as a shift of a 64-bit number.
unfoldable pub length_bytes : ℕ → Bytes
length_bytes n =
    if ltb n 126
    then (128 + n) ∷ []
    else if ltb n 65536
    then 254 ∷ (n / 2 ^ 8 % 256) ∷ (n % 256) ∷ []
    else 255
      ∷ (n / 2 ^ 56 % 256)
      ∷ (n / 2 ^ 48 % 256)
      ∷ (n / 2 ^ 40 % 256)
      ∷ (n / 2 ^ 32 % 256)
      ∷ (n / 2 ^ 24 % 256)
      ∷ (n / 2 ^ 16 % 256)
      ∷ (n / 2 ^ 8 % 256)
      ∷ (n % 256)
      ∷ []

unfoldable pub encode : Bytes → Bytes → Bool → Bytes
encode bytes mask binary =
    (128 + (if binary then 2 else 1)) ∷ length_bytes (length bytes)
    ++ mask
    ++ mask_from 0 mask bytes

-- The payload and `consumed`.
pub record Decoded : Type 0 where
  pub payload : Bytes
  pub consumed : ℕ

abbrev pub nothing : Decoded
nothing = record { payload = []; consumed = 0 }

-- `payload_len` and `header_len` of the two extended forms, from what follows the second byte.
abbrev pub two_bytes : Bytes → Option (ℕ × ℕ)
two_bytes (h ∷ l ∷ rest) = some (h * 2 ^ 8 + l, 4)
two_bytes _ = none

abbrev pub eight_bytes : Bytes → Option (ℕ × ℕ)
eight_bytes (b₇ ∷ b₆ ∷ b₅ ∷ b₄ ∷ b₃ ∷ b₂ ∷ b₁ ∷ b₀ ∷ rest) = some (
  b₇ * 2 ^ 56
      + b₆ * 2 ^ 48
      + b₅ * 2 ^ 40
      + b₄ * 2 ^ 32
      + b₃ * 2 ^ 24
      + b₂ * 2 ^ 16
      + b₁ * 2 ^ 8
      + b₀,
  10,
)
eight_bytes _ = none

unfoldable pub payload_length : ℕ → Bytes → Option (ℕ × ℕ)
payload_length n rest =
    if n == 126 then two_bytes rest else if n == 127 then eight_bytes rest else some (n, 2)

-- `size_t` has 32 bits, the sum with the 64-bit `payload_len` 64.
unfoldable pub decode_payload : ℕ → Bool → ℕ → ℕ → Bytes → Decoded
decode_payload opcode masked n h bytes =
    let header_len = if masked then h + 4 else h in
    let total = (header_len + n) % 2 ^ 64 in
    let body = take n (drop header_len bytes) in
    if ltb (length bytes) total
    then nothing
    else if opcode == 8
    then record { payload = []; consumed = total % 2 ^ 32 }
    else if ltb payload_capacity n
    then nothing
    else record {
      payload = if masked then mask_from 0 (take 4 (drop h bytes)) body else body;
      consumed = total % 2 ^ 32;
    }

unfoldable pub decode : Bytes → Decoded
decode (b₀ ∷ b₁ ∷ rest) = elim (payload_length (b₁ % 128) rest) [
  | none ↦ nothing
  | some (n, h) ↦ decode_payload (b₀ % 16) (b₁ / 128 % 2 == 1) n h (b₀ ∷ b₁ ∷ rest)
]
decode _ = nothing
