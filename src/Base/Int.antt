-- ===== src/Base/Int.antt =====
-- `int` counters that only count up and down by one. They do not wrap: 2 ^ 31 steps are out of
-- reach of the buffers that they count over.
use Prim.Native.Nat.{ℕ, zero, suc}
use mathlib.Core.Bool.{Bool, true, false}
use tailscale_iot.Base.Tests.{◌==◌, ltb}

-- `negsuc n` is -(n + 1).
pub data ℤ : Type 0 where
  pos : ℕ → ℤ
  negsuc : ℕ → ℤ

abbrev pub inc : ℤ → ℤ
inc (pos n) = pos (suc n)
inc (negsuc zero) = pos 0
inc (negsuc (suc n)) = negsuc n

abbrev pub dec : ℤ → ℤ
dec (pos zero) = negsuc 0
dec (pos (suc n)) = pos n
dec (negsuc n) = negsuc (suc n)

infix 50 ◌==ℤ◌
abbrev pub ◌==ℤ◌ : ℤ → ℤ → Bool
pos a ==ℤ pos b = a == b
pos a ==ℤ negsuc b = false
negsuc a ==ℤ pos b = false
negsuc a ==ℤ negsuc b = a == b

abbrev pub ltbℤ : ℤ → ℤ → Bool
ltbℤ (pos a) (pos b) = ltb a b
ltbℤ (pos a) (negsuc b) = false
ltbℤ (negsuc a) (pos b) = true
ltbℤ (negsuc a) (negsuc b) = ltb b a
