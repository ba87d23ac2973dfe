-- ===== src/Tcp/Checksum.antt =====
-- `calculate_ip_checksum_` and `calculate_tcp_checksum_` of components/tailscale/tailscale.cpp.
pub mod Fold
use tailscale_iot.Base.{
  ℕ, zero, suc, ◌+◌, ◌-◌, ◌*◌, ◌/◌, ◌%◌, ◌^◌, [], ◌∷◌, Bytes, length, take, drop, if◌then◌else◌,
  ◌==◌,
}

-- The sum of the 16-bit words, most significant byte first; a last odd byte is a high byte.
unfoldable pub sum_words : Bytes → ℕ
sum_words [] = 0
sum_words (h ∷ []) = h * 2 ^ 8
sum_words (h ∷ l ∷ rest) = h * 2 ^ 8 + l + sum_words rest

-- `while (sum >> 16) sum = (sum & 0xFFFF) + (sum >> 16);`
unfoldable pub fold : ℕ → ℕ → ℕ
fold zero sum = sum
fold (suc fuel) sum =
    let rest = fold fuel (sum % 2 ^ 16 + sum / 2 ^ 16) in if sum / 2 ^ 16 == 0 then sum else rest

-- Two rounds are enough for a sum of 32 bits.
abbrev pub rounds : ℕ
rounds = 2

-- The folded sum, and `static_cast<uint16_t>(~sum)`.
unfoldable pub ones_sum : ℕ → ℕ
ones_sum sum = fold rounds (sum % 2 ^ 32)

unfoldable pub complement : ℕ → ℕ
complement sum = (2 ^ 32 - 1 - ones_sum sum) % 2 ^ 16

unfoldable pub ip_checksum : Bytes → ℕ
ip_checksum header = complement (sum_words header)

-- The sum over the pseudo header, with the addresses of the IP header, and the segment.
unfoldable pub tcp_sum : Bytes → Bytes → ℕ
tcp_sum ip_header segment =
    sum_words (take 8 (drop 12 ip_header)) + 6 + length segment + sum_words segment

unfoldable pub tcp_checksum : Bytes → Bytes → ℕ
tcp_checksum ip_header segment = complement (tcp_sum ip_header segment)
