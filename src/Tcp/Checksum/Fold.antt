-- ===== src/Tcp/Checksum/Fold.antt =====
-- Folding a sum, and what a receiver computes.
use tailscale_iot.Base.{
  ℕ, zero, suc, ◌+◌, ◌-◌, ◌*◌, ◌%◌, ◌^◌, ◌<◌, ◌≤◌, ◌≡◌, [], ◌∷◌, Bytes, All, IsByte, length, arith,
}
use tailscale_iot.Tcp.Checksum.{sum_words, fold, ones_sum, complement, rounds}

-- Whatever the sum of 32 bits, the loop ends after at most two rounds, with a number of 16 bits.
pub fold_enough :
    (sum more : ℕ)
    → sum < 2 ^ 32
    → (fold (rounds + more) sum ≡ fold rounds sum) × (fold rounds sum < 2 ^ 16)
unfolding fold
fold_enough sum zero h = ground arith
fold_enough sum (suc more) h = ground arith

-- The folded sum is the sum in one's complement: the same modulo 65535, and 0 only for 0.
ones_sum_mod :
    (sum : ℕ) → sum < 2 ^ 32 → (ones_sum sum % 65535 ≡ sum % 65535) × (ones_sum sum < 2 ^ 16)
unfolding ones_sum fold
ones_sum_mod sum h = ground arith

ones_sum_positive : (sum : ℕ) → sum < 2 ^ 32 → 0 < sum → 0 < ones_sum sum
unfolding ones_sum fold
ones_sum_positive sum h p = ground arith

complement-ones_sum : (sum : ℕ) → sum < 2 ^ 32 → complement sum ≡ 65535 - ones_sum sum
unfolding complement
complement-ones_sum sum h = omega (arith, ones_sum_mod sum h)

pub complement_fits : (sum : ℕ) → complement sum < 2 ^ 16
unfolding complement
complement_fits sum = omega arith

-- With its complement added to it a sum folds to 65535.
pub ones_sum-complement :
    (sum : ℕ) → 0 < sum → sum < 2 ^ 31 → ones_sum (sum + complement sum) ≡ 65535
ones_sum-complement sum p h =
    let total = sum + complement sum in
    omega (
      arith,
      ones_sum_mod sum (omega arith),
      ones_sum_positive sum (omega arith) p,
      complement-ones_sum sum (omega arith),
      complement_fits sum,
      ones_sum_mod total (omega (arith, complement_fits sum)),
      ones_sum_positive total (omega (arith, complement_fits sum)) (omega arith),
    )

pub sum_words-bound : (s : Bytes) → All IsByte s → sum_words s ≤ length s * 2 ^ 16
unfolding sum_words
sum_words-bound [] h = omega arith
sum_words-bound (a ∷ []) h = ground arith
sum_words-bound (a ∷ b ∷ s) h = ground (arith, sum_words-bound s)
