-- ===== src/Tcp/Packet/Valid.antt =====
-- The checksums of the packets that are built.
use tailscale_iot.Base.{
  ℕ, ◌+◌, ◌^◌, ◌<◌, ◌≤◌, ◌≡◌, refl, ◌++◌, Bytes, All, IsByte, length, take, drop, arith, some, ap,
  ◌∙◌,
}
use tailscale_iot.Tcp.Checksum.{sum_words, ones_sum, complement, ip_checksum, tcp_checksum, tcp_sum}
use tailscale_iot.Tcp.Checksum.Fold.{ones_sum-complement, complement_fits, sum_words-bound}
use tailscale_iot.Tcp.Packet.{Endpoints, ip_header, tcp_segment, build_packet}

ip_sum :
    (e : Endpoints) (n c : ℕ)
    → c < 2 ^ 16
    → sum_words (ip_header e n c) ≡ sum_words (ip_header e n 0) + c
unfolding sum_words ip_header
ip_sum e n c h = omega arith

ip_sum-bound :
    (e : Endpoints) (n : ℕ)
    → (0 < sum_words (ip_header e n 0)) × (sum_words (ip_header e n 0) < 2 ^ 31)
unfolding sum_words ip_header
ip_sum-bound e n = (omega arith, omega arith)

segment_sum :
    (e : Endpoints) (flags c : ℕ) (payload ip : Bytes)
    → c < 2 ^ 16
    → tcp_sum ip (tcp_segment e flags payload c) ≡ tcp_sum ip (tcp_segment e flags payload 0) + c
unfolding tcp_sum sum_words tcp_segment
segment_sum e flags c payload ip h = omega arith

segment_sum-bound :
    (e : Endpoints) (n c flags : ℕ) (payload : Bytes)
    → flags < 2 ^ 8
    → length payload ≤ 1460
    → All IsByte payload
    → (0 < tcp_sum (ip_header e n c) (tcp_segment e flags payload 0))
      × (tcp_sum (ip_header e n c) (tcp_segment e flags payload 0) < 2 ^ 31)
unfolding tcp_sum sum_words tcp_segment ip_header
segment_sum-bound e n c flags payload hf hl hp =
    (omega (arith, sum_words-bound payload hp), omega (arith, sum_words-bound payload hp))

-- What a receiver checks: with the checksums in their places both sums fold to 65535.
abbrev pub IsValidPacket : Bytes → Type 0
IsValidPacket p =
    (ones_sum (sum_words (take 20 p)) ≡ 65535)
    × (ones_sum (tcp_sum (take 20 p) (drop 20 p)) ≡ 65535)

take-ip_header :
    (e : Endpoints) (n c : ℕ) (rest : Bytes) → take 20 (ip_header e n c ++ rest) ≡ ip_header e n c
unfolding ip_header
take-ip_header e n c rest = refl

drop-ip_header : (e : Endpoints) (n c : ℕ) (rest : Bytes) → drop 20 (ip_header e n c ++ rest) ≡ rest
unfolding ip_header
drop-ip_header e n c rest = refl

ip_header-checksum :
    (e : Endpoints) (n : ℕ)
    → ones_sum (sum_words (ip_header e n (ip_checksum (ip_header e n 0)))) ≡ 65535
unfolding ip_checksum
ip_header-checksum e n =
    let sum = sum_words (ip_header e n 0) in
    ap ones_sum (ip_sum e n (complement sum) (complement_fits sum))
    ∙ ones_sum-complement sum (ip_sum-bound e n).0 (ip_sum-bound e n).1

tcp_segment-checksum :
    (e : Endpoints) (n c flags : ℕ) (payload : Bytes)
    → flags < 2 ^ 8
    → length payload ≤ 1460
    → All IsByte payload
    → ones_sum (
        tcp_sum (ip_header e n c) (
          tcp_segment e flags payload
            (tcp_checksum (ip_header e n c) (tcp_segment e flags payload 0))))
      ≡ 65535
unfolding tcp_checksum
tcp_segment-checksum e n c flags payload hf hl hp =
    let ip = ip_header e n c in
    let sum = tcp_sum ip (tcp_segment e flags payload 0) in
    let (lo, hi) = segment_sum-bound e n c flags payload hf hl hp in
    ap ones_sum (segment_sum e flags (complement sum) payload ip (complement_fits sum))
    ∙ ones_sum-complement sum lo hi

-- Every packet that is built passes the receiver's check of the IP header's checksum and of the
-- TCP checksum over the pseudo header, for any connection, any flags and a payload of bytes of
-- even or odd length.
pub build_packet-IsValidPacket :
    (e : Endpoints) (flags : ℕ) (payload packet : Bytes)
    → flags < 2 ^ 8
    → All IsByte payload
    → build_packet e flags payload ≡ some packet
    → IsValidPacket packet
unfolding build_packet
build_packet-IsValidPacket e flags payload packet hf hp h =
    let n = 40 + length payload in
    let c = ip_checksum (ip_header e n 0) in
    let ip = ip_header e n c in
    let tcp = tcp_segment e flags payload (tcp_checksum ip (tcp_segment e flags payload 0)) in
    let small : length payload ≤ 1460 = ground (arith, h) in
    let built : packet ≡ ip ++ tcp = ground (arith, h) in
    let front : take 20 packet ≡ ip = ap (take 20) built ∙ take-ip_header e n c tcp in
    let back : drop 20 packet ≡ tcp = ap (drop 20) built ∙ drop-ip_header e n c tcp in
    (
      ap (λ (s : Bytes). ones_sum (sum_words s)) front ∙ ip_header-checksum e n,
      cc (front, back, tcp_segment-checksum e n c flags payload hf small hp),
    )
