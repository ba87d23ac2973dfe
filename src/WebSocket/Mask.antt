-- ===== src/WebSocket/Mask.antt =====
-- Masking: the same key takes the mask off again.
use Prim.Native.Nat.{bit_xor}
use tailscale_iot.Base.{
  ℕ, zero, suc, ◌%◌, ◌<◌, ◌≡◌, refl, ap, [], ◌∷◌, Bytes, Bool, true, if◌then◌else◌, false, ◌==◌,
  length, get_or, All, IsByte, arith,
}
use tailscale_iot.WebSocket.{mask_from}

-- Both bytes of a pair counted down: masking twice gives the byte back.
restores : ℕ → ℕ → Bool
restores key zero = true
restores key (suc x) = if bit_xor (bit_xor x key) key == x then restores key x else false

table : ℕ → ℕ → Bool
table m zero = true
table m (suc key) = if restores key m then table m key else false

whole_table : table 256 256 ≡ true
unfolding table restores
whole_table = refl

restores→eq : (key n x : ℕ) → restores key n ≡ true → x < n → bit_xor (bit_xor x key) key ≡ x
unfolding restores
restores→eq key zero x h l = absurd (omega arith)
restores→eq key (suc n) x h l = ground (arith, restores→eq key n x)

table→restores : (m n key : ℕ) → table m n ≡ true → key < n → restores key m ≡ true
unfolding table
table→restores m zero key h l = absurd (omega arith)
table→restores m (suc n) key h l = ground (arith, table→restores m n key)

pub bit_xor_twice : (x key : ℕ) → IsByte x → IsByte key → bit_xor (bit_xor x key) key ≡ x
bit_xor_twice x key hx hk = restores→eq key 256 x (table→restores 256 256 key whole_table hk) hx

get_or-IsByte : (mask : Bytes) (i : ℕ) → All IsByte mask → IsByte (get_or mask i 0)
get_or-IsByte [] i h = omega arith
get_or-IsByte (m ∷ mask) zero h = h.0
get_or-IsByte (m ∷ mask) (suc i) h = get_or-IsByte mask i h.1

pub mask_from_twice :
    (i : ℕ) (mask bytes : Bytes)
    → All IsByte mask
    → All IsByte bytes
    → mask_from i mask (mask_from i mask bytes) ≡ bytes
unfolding mask_from
mask_from_twice i mask [] hm hd = refl
mask_from_twice i mask (b ∷ bytes) hm hd = cc (
  bit_xor_twice b (get_or mask (i % 4) 0) hd.0 (get_or-IsByte mask (i % 4) hm),
  mask_from_twice (suc i) mask bytes hm hd.1,
)

pub length-mask_from : (i : ℕ) (mask bytes : Bytes) → length (mask_from i mask bytes) ≡ length bytes
unfolding mask_from
length-mask_from i mask [] = refl
length-mask_from i mask (b ∷ bytes) = ap suc (length-mask_from (suc i) mask bytes)
