-- ===== src/Base/Search.antt =====
-- `std::string::find` and `strstr`: the first place where a needle stands, as the bytes before it
-- and those from it on.
use mathlib.Core.Bool.{Bool, true, false}
use mathlib.Core.List.{[], ◌∷◌, ◌++◌}
use mathlib.Core.Logic.{inl, inr}
use mathlib.Core.Option.{Option, none, some}
use mathlib.Core.Path.{◌≡◌}
use native.Mathlib.Omega.{arith}
use tailscale_iot.Base.Tests.{if◌then◌else◌, Option-cases}
use tailscale_iot.Base.Text.{Bytes, starts_with}

unfoldable pub find : Bytes → Bytes → Option (Bytes × Bytes)
find n [] = if starts_with n [] then some ([], []) else none
find n (c ∷ s) =
    let rest : Option (Bytes × Bytes) = elim (find n s) [
      | none ↦ none
      | some (a, b) ↦ some (c ∷ a, b)
    ] in
    if starts_with n (c ∷ s) then some ([], c ∷ s) else rest

pub find-parts :
    (n s a b : Bytes) → find n s ≡ some (a, b) → (a ++ b ≡ s) × (starts_with n b ≡ true)
unfolding find
find-parts n [] a b e = ground arith
find-parts n (c ∷ s) a b e = elim (Option-cases (find n s)) [
  | inl f ↦ ground (arith, f)
  | inr ((x, y), f) ↦ ground (arith, f, find-parts n s x y f)
]

abbrev pub contains : Bytes → Bytes → Bool
contains n s = elim (find n s) [ none ↦ false | some _ ↦ true ]
